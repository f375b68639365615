-- ===== src/Transfer/Span.antt =====
-- The blocks that a range of a file's bytes lies in.
use fcfs.Base.{ℕ, ◌+◌, ◌-◌, ◌*◌, ◌/◌, ◌%◌, ◌^◌, ◌≤◌, ◌<◌, ◌≡◌, false, arith}
use fcfs.Base.Words.{u32, is_neg}
use native.Mathlib.Nat.{div-add-mod}
use fcfs.Structs.{sizeof_file_header}
use fcfs.Utils.{to_blk_cnt}
use fcfs.Utils.Blocks.{to_blk_cnt_lem}
use fcfs.Transfer.{first_block, block_off}

-- `size` bytes at `offset` of a file of `n` blocks
pub record InBlocks (lblk n size offset : ℕ) : Type 0 where
  pub start : first_block lblk offset * lblk + block_off lblk offset ≡ offset + sizeof_file_header
  pub held : block_off lblk offset + size ≤ to_blk_cnt (block_off lblk offset + size) lblk * lblk
  pub blocks : first_block lblk offset + to_blk_cnt (block_off lblk offset + size) lblk ≤ n
  pub span_u32 : u32 (block_off lblk offset + size) ≡ block_off lblk offset + size
  pub span_nonneg : is_neg (block_off lblk offset + size) ≡ false

pub quotient_le : (q n l : ℕ) → q * l ≤ n * l → 0 < l → q ≤ n
quotient_le q n l h pos = grind arith

pub count_le : (n l : ℕ) → 0 < l → n ≤ n * l
count_le n l pos = grind arith

pub left_over : (q n l r size : ℕ) → q * l + r + size ≤ n * l → q ≤ n → r + size ≤ (n - q) * l
left_over q n l r size h le = grind arith

pub InBlocks_lem :
    (lblk n size offset : ℕ)
    → 0 < lblk
    → n * lblk < 2 ^ 31
    → offset + sizeof_file_header + size ≤ n * lblk
    → InBlocks lblk n size offset
InBlocks_lem lblk n size offset pos small fits =
    let o : ℕ = offset + sizeof_file_header in
    let split : o / lblk * lblk + o % lblk ≡ o = grind (arith, div-add-mod o lblk) in
    let le : o / lblk ≤ n = quotient_le (o / lblk) n lblk (omega (arith, split)) pos in
    let low : o / lblk < 2 ^ 31 = omega (arith, le, small, count_le n lblk pos) in
    let first : first_block lblk offset ≡ o / lblk = omega (arith, low) in
    let (held, most) =
      to_blk_cnt_lem (o % lblk + size) lblk (n - o / lblk) pos
        (left_over (o / lblk) n lblk (o % lblk) size (omega (arith, split)) le) in
    let short : o % lblk + size < 2 ^ 31 = omega (arith, split) in
    record {
      start = rw first split;
      held = held;
      blocks = rw first (omega (arith, most, le));
      span_u32 = omega (arith, short);
      span_nonneg = ground (arith, short);
    }
