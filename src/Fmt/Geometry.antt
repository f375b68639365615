-- ===== src/Fmt/Geometry.antt =====
-- Whether the regions that the formatter lays out fit the drive and their contents.
use fcfs.Base.{ℕ, ◌+◌, ◌-◌, ◌*◌, ◌/◌, ◌%◌, ◌^◌, ◌≤◌, ◌<◌, ◌≡◌, arith}
use native.Mathlib.Nat.{div-add-mod, mod-lt, div-lt_iff_lt-mul}
use fcfs.Base.Words.{u16, u32}
use fcfs.Structs.{Head, sizeof_table}
use fcfs.Fmt.{sub64, ceil_div, table_blocks, format_head}

-- The blocks of the drive, in the order in which they are laid out: head, bitmap, table, a gap of
-- one block, clusters of 8 blocks.
abbrev pub data_end : Head → ℕ
data_end h = h.dta_beg + 8 * h.clu_cnt

-- A sector size that the formatter's 16-bit fields hold, and a drive with room for one cluster.
pub record IsDrive (sec_sz sec_cnt : ℕ) : Type 0 where
  pub sector_low : 18 ≤ sec_sz
  pub sector_high : sec_sz < 2 ^ 16
  pub count_high : sec_cnt < 2 ^ 32
  pub room : (table_blocks (2 * sec_sz) + 1) * 2 + sec_cnt / 64 + 64 ≤ sec_cnt

quotient_small : (s : ℕ) → 18 ≤ s → sizeof_table / (2 * s) < 2 ^ 16 - 1
quotient_small s h =
    (div-lt_iff_lt-mul {x = sizeof_table} {y = 2 ^ 16 - 1} (omega arith)).1 (omega arith)

pub table_blocks-eq : (s : ℕ) → 18 ≤ s → table_blocks (2 * s) ≡ sizeof_table / (2 * s) + 1
unfolding table_blocks
table_blocks-eq s h = omega (arith, quotient_small s h)

-- With sectors of at least 18 bytes the blocks reserved for the file table hold it, and one block
-- less than the computed number would not be enough unless the table fills its blocks exactly.
pub table_fits :
    (s : ℕ)
    → 18 ≤ s
    → (sizeof_table < table_blocks (2 * s) * (2 * s))
      × ((table_blocks (2 * s) - 1) * (2 * s) ≤ sizeof_table)
table_fits s h =
    let q : ℕ = sizeof_table / (2 * s) in
    let split : 2 * s * q + sizeof_table % (2 * s) ≡ sizeof_table =
      div-add-mod sizeof_table (2 * s) in
    let rest : sizeof_table % (2 * s) < 2 * s = mod-lt sizeof_table (omega arith) in
    let count : table_blocks (2 * s) ≡ q + 1 = table_blocks-eq s h in
    let back : q + 1 - 1 ≡ q = omega arith in rw (count, back) (omega arith)

ceil_div-le : (a b : ℕ) → 0 < b → ceil_div a b ≤ a
ceil_div-le a b h = omega (arith, (div-lt_iff_lt-mul {x = a + b - 1} {y = a + 1} h).1 (grind arith))

-- The arithmetic of the last cluster: `b` blocks in all, `t` for the table, `m` for the bitmap.
last_block :
    (b t m : ℕ)
    → b < 2 ^ 32
    → t + m + 1 ≤ b
    → 2 + m + t + 8 * (sub64 (sub64 (sub64 b t) m) 1 / 8) + (b - t - m - 1) % 8 ≡ b + 1
last_block b t m h r = omega arith

pub bitmap_small :
    (b t l : ℕ)
    → 0 < l
    → b < 2 ^ 32
    → t + 1 ≤ b
    → u32 (ceil_div (sub64 (sub64 b t) 1 / 8 / 8) l) ≤ b / 64
bitmap_small b t l pos h r = omega (arith, ceil_div-le (sub64 (sub64 b t) 1 / 8 / 8) l pos)

-- On a drive with room for a cluster the clusters end one block behind the end of the drive, less
-- the blocks that are left over when the rest is cut into clusters of 8: so the last block lies
-- outside the drive exactly when none is left over.
pub data_end_lem :
    (sec_sz sec_cnt now : ℕ)
    → IsDrive sec_sz sec_cnt
    → let h = format_head sec_sz sec_cnt now in
      data_end h + (h.blk_cnt - h.tbl_len - h.bmp_len - 1) % 8 ≡ h.blk_cnt + 1
unfolding format_head
data_end_lem s n now d =
    let whole : u16 s ≡ s = omega arith in
    let b : ℕ = n / 2 in
    let t : ℕ = table_blocks (2 * s) in
    let m : ℕ = u32 (ceil_div (sub64 (sub64 b t) 1 / 8 / 8) (2 * s)) in
    let small : m ≤ b / 64 = bitmap_small b t (2 * s) (omega arith) (omega arith) (omega arith) in
    let sum : u32 (2 + m + t) ≡ 2 + m + t = omega arith in
    rw (whole, sum) (last_block b t m (omega arith) (omega arith))
