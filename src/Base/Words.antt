-- ===== src/Base/Words.antt =====
-- C integers. An `int` is its bit pattern, a number below 2^32; the sign is read where it matters.
use Prim.Native.Nat.{ℕ, ◌-◌, ◌%◌, ◌^◌}
use mathlib.Core.Bool.{Bool}
use fcfs.Base.Tests.{leb}

abbrev pub u8 : ℕ → ℕ
u8 n = n % 2 ^ 8

abbrev pub u16 : ℕ → ℕ
u16 n = n % 2 ^ 16

abbrev pub u32 : ℕ → ℕ
u32 n = n % 2 ^ 32

abbrev pub u64 : ℕ → ℕ
u64 n = n % 2 ^ 64

-- (int)-1
abbrev pub minus_one : ℕ
minus_one = 2 ^ 32 - 1

-- n < 0 for an `int`
abbrev pub is_neg : ℕ → Bool
is_neg n = leb (2 ^ 31) n

-- The distance below zero of a negative `int`.
abbrev pub magnitude : ℕ → ℕ
magnitude n = 2 ^ 32 - n
