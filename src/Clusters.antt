-- ===== src/Clusters.antt =====
-- fcfs/src/dev/common.c over a volume: which clusters, blocks and file numbers are free.
pub mod FreeFid
pub mod FreeLinks
pub mod Distinct
pub mod FreeBlocks
pub mod FullFree
pub mod Sync
pub mod Coherent
pub mod Ready
pub mod Claim
use fcfs.Base.{
  ℕ, zero, suc, ◌+◌, ◌-◌, Bool, true, false, Option, none, some, List, [], ◌∷◌, ◌++◌, map, ltb,
  ◌==◌, if◌then◌else◌, length, take, drop, get_elem?,
}
use fcfs.Base.Monad.{out_of_fuel, ◌>>=◌, ◌>>◌, pure, get, need, modify}
use fcfs.Base.Words.{minus_one, u8, u32}
use fcfs.Structs.{BlockList, BlockListEntry, TableEntry, BlkInfo, bloks_per_cluster}
use fcfs.Volume.{Volume, M}
use fcfs.Device.{get_blocks}
use fcfs.Bitmap
use fcfs.Ctable.{read_ctable, write_ctable}
use fcfs.Persist.{write_bitmap}

-- dev_upd_bitmap on the volume's bitmap
pub upd_bitmap : List BlockListEntry → ℕ → M Bool
upd_bitmap entrs cid = do
  v ← get
  (changed, bitmap) ← need (Bitmap.upd_bitmap v.fs_bitmap entrs cid)
  modify (λ s. record s { fs_bitmap = bitmap })
  pure changed

-- `if(dev_upd_bitmap(args, bl, cid)) dev_write_bitmap(args);`
pub sync_bitmap : List BlockListEntry → ℕ → M (Unit {0})
sync_bitmap entrs cid = do
  changed ← upd_bitmap entrs cid
  if changed then write_bitmap >> pure tt else pure tt

-- dev_free_cluster_from and dev_free_cluster on the volume's bitmap
unfoldable pub free_cluster_from : ℕ → M ℕ
free_cluster_from cid = do
  v ← get
  need (Bitmap.free_cluster_from v.fs_bitmap v.fs_head.clu_cnt cid)

unfoldable pub free_cluster : M ℕ
free_cluster = free_cluster_from 0

-- The loop of dev_full_free_cluster from `start`: the next cluster none of whose blocks is taken.
pub full_free_cluster : ℕ → ℕ → M ℕ
full_free_cluster zero start = λ _. out_of_fuel
full_free_cluster (suc fuel) start = do
  cid ← free_cluster_from start
  bl ← read_ctable cid
  if length (get_blocks bl.entrs 0) == bloks_per_cluster - 1
      then pure cid
      else full_free_cluster fuel cid

-- The loop of dev_free_fid over entries from number `i` with `left` rounds to go; `none` for a read
-- behind the table.
pub free_fid_from : List TableEntry → ℕ → ℕ → Option ℕ
free_fid_from es i zero = some minus_one
free_fid_from [] i (suc left) = none
free_fid_from (e ∷ es) i (suc left) =
    let rest = free_fid_from es (i + 1) left in if e.lnk_cnt == 0 then some i else rest

-- dev_free_fid
pub free_fid : M ℕ
free_fid = do v ← get; need (free_fid_from (drop 1 v.fs_table.entrs) 1 (v.fs_head.tbl_cnt - 1))

abbrev pub links : ℕ → List ℕ → List BlkInfo
links cid bids = map (λ bid. record { cid = cid; bid = u8 bid; num = 0 }) bids

-- The loop of dev_free_blocks: `count` blocks still to be found behind those found so far, the
-- search going on behind `old_cid`. A cluster without a free block leaves `old_cid` as it is.
pub free_blocks_from : ℕ → ℕ → ℕ → List BlkInfo → M (List BlkInfo)
free_blocks_from fuel zero old_cid found = pure found
free_blocks_from zero (suc count) old_cid found = λ _. out_of_fuel
free_blocks_from (suc fuel) (suc count) old_cid found = do
  cid ← free_cluster_from old_cid
  bl ← read_ctable cid
  let bids = take (suc count) (get_blocks bl.entrs 0)
  free_blocks_from fuel (suc count - length bids) (if length bids == 0 then old_cid else cid)
      (found ++ links cid bids)

-- dev_free_blocks for a positive count; the list has as many links as its length says.
pub free_blocks : ℕ → ℕ → M (List BlkInfo)
free_blocks fuel count = free_blocks_from fuel count 0 []

-- The table that dev_clust_claim writes: every block belongs to file -1.
pub claimed : ℕ → List BlockListEntry → List BlockListEntry
claimed i [] = []
claimed i (e ∷ es) = record { fid = minus_one; num = i } ∷ claimed (i + 1) es

-- dev_clust_claim
pub clust_claim : ℕ → M ℕ
clust_claim cid = do
  bl ← read_ctable cid
  let entrs = claimed 0 bl.entrs
  res ← write_ctable cid (record bl { entrs = entrs })
  sync_bitmap entrs cid
  pure res
