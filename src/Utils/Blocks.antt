-- ===== src/Utils/Blocks.antt =====
-- to_blk_cnt counts the blocks that hold a length.
use fcfs.Base.{ℕ, ◌+◌, ◌-◌, ◌*◌, ◌≤◌, ◌<◌, arith}
use native.Mathlib.Nat.{div-add-mod, mod-lt, div-lt_iff_lt-mul}
use fcfs.Utils.{to_blk_cnt}

-- For a positive block size the count of blocks holds the data, and it is at most any count that
-- holds the data.
pub to_blk_cnt_lem :
    (data_len lblk_sz n : ℕ)
    → 0 < lblk_sz
    → data_len ≤ n * lblk_sz
    → (data_len ≤ to_blk_cnt data_len lblk_sz * lblk_sz) × (to_blk_cnt data_len lblk_sz ≤ n)
unfolding to_blk_cnt
to_blk_cnt_lem d l n pos h = (
  grind (arith, div-add-mod (d + l - 1) l, mod-lt (d + l - 1) pos),
  omega (arith, (div-lt_iff_lt-mul {x = d + l - 1} {y = n + 1} pos).1 (grind arith)),
)
