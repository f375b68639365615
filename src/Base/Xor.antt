-- ===== src/Base/Xor.antt =====
-- The size of an exclusive or.
use Prim.Native.Nat.{
  ℕ, zero, suc, ◌+◌, ◌/◌, ◌%◌, ◌^◌, ◌<◌, ◌≤◌, bit_xor, bit_xor-bitwise, digits, differ,
}
use mathlib.Core.Path.{◌≡◌, sym, subst}
use native.Mathlib.Omega.{arith}
use native.Mathlib.Nat.{pow-suc}

differ_le : (x y : ℕ) → differ x y ≤ x + y
differ_le zero y = omega arith
differ_le (suc x) zero = omega arith
differ_le (suc x) (suc y) = omega (arith, differ_le x y)

differ_bits : (x y : ℕ) → x < 2 → y < 2 → differ x y < 2
differ_bits zero y a b = b
differ_bits (suc zero) zero a b = omega arith
differ_bits (suc zero) (suc y) a b = omega (arith, differ_le 0 y)
differ_bits (suc (suc x)) y a b = absurd (omega arith)

digits_lt : (k n a b : ℕ) → a < 2 ^ k → b < 2 ^ k → digits (λ b. b) differ n a b < 2 ^ k
digits_lt k zero a b ha hb = hb
digits_lt k (suc n) zero b ha hb = hb
digits_lt zero (suc n) (suc a) b ha hb = absurd (omega arith)
digits_lt (suc k) (suc n) (suc a) b ha hb = omega (
  arith,
  pow-suc 2 k,
  digits_lt k n (suc a / 2) (b / 2) (omega (arith, pow-suc 2 k)) (omega (arith, pow-suc 2 k)),
  differ_bits (suc a % 2) (b % 2) (omega arith) (omega arith),
)

-- An exclusive or has no more digits than its arguments.
pub bit_xor_lt : (k a b : ℕ) → a < 2 ^ k → b < 2 ^ k → bit_xor a b < 2 ^ k
bit_xor_lt k a b ha hb =
    subst (λ n. n < 2 ^ k) (sym (λ i. bit_xor-bitwise a b i)) (digits_lt k a a b ha hb)

-- Nothing is left of an exclusive or with 0.
pub bit_xor_zero : (b : ℕ) → bit_xor 0 b ≡ b
bit_xor_zero b = λ i. bit_xor-bitwise 0 b i
