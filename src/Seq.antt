-- ===== src/Seq.antt =====
-- A file's list of blocks: the sort at the end of dev_get_file_seq (fcfs/src/dev/file.c), and the
-- reads and writes by logical number in fcfs/src/dev/read.c and write.c.
pub mod Sort
pub mod ById
use fcfs.Base.{
  ℕ, zero, suc, ◌-◌, Bool, true, false, ◌||◌, Option, none, some, List, [], ◌∷◌, ltb, ◌==◌,
  if◌then◌else◌, length,
}
use fcfs.Base.Monad.{◌>>=◌, ◌>>◌, pure, get, need}
use fcfs.Base.Words.{is_neg, minus_one}
use fcfs.Structs.{BlkInfo}
use fcfs.Volume.{M, lblk_sz}
use fcfs.Device.{need_crypt, read_block, write_block}

-- `rounds` comparisons of one pass. `cur` is never moved on, so each compares the first two links.
unfoldable pub pass : ℕ → List BlkInfo → Bool → List BlkInfo × Bool
pass zero l flag = (l, flag)
pass (suc rounds) [] flag = ([], flag)
pass (suc rounds) (a ∷ []) flag = (a ∷ [], flag)
pass (suc rounds) (cur ∷ nxt ∷ l) flag =
    let swap = ltb nxt.num cur.num in
    pass rounds (if swap then nxt ∷ cur ∷ l else cur ∷ nxt ∷ l) (swap || flag)

-- `while(flag)` over passes of `k - 1` comparisons; `none` when the fuel runs out
unfoldable pub sort : ℕ → List BlkInfo → Option (List BlkInfo)
sort zero l = none
sort (suc fuel) l =
    let (l', flag) = pass (length l - 1) l false in
    let again = sort fuel l' in if flag then again else some l'

-- The search for a logical number over `seq_sz` links: `none` for a step behind the last link,
-- `some none` when no link has the number.
unfoldable pub find_num : ℕ → List BlkInfo → ℕ → Option (Option BlkInfo)
find_num zero l id = some none
find_num (suc n) [] id = none
find_num (suc n) (inf ∷ l) id =
    let rest = find_num n l id in if inf.num == id then some (some inf) else rest

-- The place of a block: `none` for the result -1.
abbrev pub place : ℕ → List BlkInfo → ℕ → Option (Option BlkInfo)
place seq_sz l id = if is_neg seq_sz then some none else elim (find_num seq_sz l id) [
  | none ↦ none
  | some none ↦ some none
  | some (some inf) ↦ some (if is_neg inf.cid then none else some inf)
]

-- dev_read_by_id: `none` for -1, or 0 with the block in the buffer
pub read_by_id : ℕ → List BlkInfo → ℕ → M (Option (List ℕ))
read_by_id id l seq_sz = do
  found ← need (place seq_sz l id)
  elim found [
    | none ↦ pure none
    | some inf ↦ (do b ← read_block inf.cid inf.bid need_crypt; bs ← need b; pure (some bs))
  ]

-- dev_write_by_id: the result of the write is not looked at.
pub write_by_id : ℕ → List ℕ → List BlkInfo → ℕ → M ℕ
write_by_id id buf l seq_sz = do
  v ← get
  found ← need (place seq_sz l id)
  elim found [
    | none ↦ pure minus_one
    | some inf ↦ (do res ← write_block inf.cid inf.bid buf (lblk_sz v) need_crypt; pure 0)
  ]
