-- ===== src/File.antt =====
-- fcfs/src/dev/file.c, and dev_del_block of common.c: the blocks that a file owns.
pub mod Owner
pub mod Release
pub mod Growth
pub mod FirstBlock
pub mod Alloc
pub mod Lengthened
pub mod MemClrs
pub mod Reserve
pub mod Steps
use fcfs.Base.{
  ℕ, zero, suc, ◌+◌, ◌-◌, Bool, true, false, ◌||◌, Option, none, some, List, [], ◌∷◌, ◌++◌, ltb,
  ◌==◌, if◌then◌else◌, length, get_elem?, set, replicate,
}
use fcfs.Base.Monad.{◌>>=◌, ◌>>◌, pure, get, need, modify}
use fcfs.Base.Words.{is_neg, minus_one, u8, u16, u32}
use fcfs.Structs.{
  BlockList, BlockListEntry, TableEntry, BlkInfo, cluster_per_file, sizeof_file_header,
}
use fcfs.Volume.{Volume, M}
use fcfs.Device.{need_crypt, get_blocks, write_block}
use fcfs.Ctable.{read_ctable, write_ctable}
use fcfs.Persist.{write_table}
use fcfs.Clusters.{free_cluster, free_blocks, sync_bitmap}
use fcfs.Clrs.{when, clrs_cnt, clrs_get, clrs_add, clrs_set}

abbrev pub set_entry : ℕ → TableEntry → M (Unit {0})
set_entry fid e = do
  v ← get
  old ← need (get_elem? v.fs_table.entrs fid)
  modify (λ s. record s { fs_table = record s.fs_table { entrs = set s.fs_table.entrs fid e } })

-- the entry after `memset`
abbrev pub no_file : TableEntry
no_file = record { lnk_cnt = 0; clrs = replicate cluster_per_file 0 }

-- `bl->entrs[bid - 1].fid = fid; bl->entrs[bid - 1].num = num;`, and `none` outside the array
pub own : List BlockListEntry → ℕ → ℕ → ℕ → Option (List BlockListEntry)
own entrs zero fid num = none
own entrs (suc i) fid num = elim (get_elem? entrs i) [
  | none ↦ none
  | some old ↦ some (set entrs i (record { fid = fid; num = num }))
]

-- The end of dev_file_alloc: the first of the free blocks of the cluster becomes the file's first.
pub alloc_block : ℕ → ℕ → BlockList → List ℕ → M ℕ
alloc_block fid cid bl [] = pure minus_one
alloc_block fid cid bl (bid ∷ bids) = do
  entrs ← need (own bl.entrs bid fid 0)
  res ← write_ctable cid (record bl { entrs = entrs })
  sync_bitmap entrs cid
  res ← write_table
  pure 0

-- dev_file_alloc
pub file_alloc : ℕ → M ℕ
file_alloc fid = do
  set_entry fid no_file
  cid ← free_cluster
  if is_neg cid || cid == 0 then pure minus_one else (do
    set_entry fid (record { lnk_cnt = 1; clrs = u16 cid ∷ replicate (cluster_per_file - 1) 0 })
    bl ← read_ctable cid
    alloc_block fid cid bl (get_blocks bl.entrs 0))

-- dev_init_file: the first block of the file is taken from an array that may have no element.
pub init_file : ℕ → M ℕ
init_file fid = do
  cid ← clrs_get fid 0
  bl ← read_ctable cid
  bid ← need (get_elem? (get_blocks bl.entrs fid) 0)
  write_block cid bid (replicate sizeof_file_header 0) sizeof_file_header need_crypt

-- One round of the first loop of dev_file_reserve.
pub reserve_block : ℕ → ℕ → BlkInfo → M (Unit {0})
reserve_block fid num inf = do
  bl ← read_ctable inf.cid
  entrs ← need (own bl.entrs inf.bid fid num)
  res ← write_ctable inf.cid (record bl { entrs = entrs })
  sync_bitmap entrs inf.cid

-- The first loop of dev_file_reserve: the list with the numbers that its links were given.
pub reserve_blocks : ℕ → ℕ → List BlkInfo → M (List BlkInfo)
reserve_blocks fid last_num [] = pure []
reserve_blocks fid last_num (inf ∷ l) = do
  let num = u32 (last_num + 1)
  reserve_block fid num inf
  rest ← reserve_blocks fid num l
  pure (record inf { num = num } ∷ rest)

-- The inner loop of dev_file_mem_clrs from `j` with `left` rounds to go: whether a cluster of the
-- file is `cid`.
pub has_cluster : ℕ → ℕ → ℕ → ℕ → M Bool
has_cluster fid cid j zero = pure false
has_cluster fid cid j (suc left) = do
  t ← clrs_get fid j
  if t == cid then pure true else has_cluster fid cid (j + 1) left

-- dev_file_mem_clrs; the fuel is that of the search for a free cluster.
pub file_mem_clrs : ℕ → ℕ → List BlkInfo → ℕ → M (Unit {0})
file_mem_clrs fuel fid [] clust_cnt = pure tt
file_mem_clrs fuel fid (inf ∷ l) clust_cnt = do
  f ← has_cluster fid inf.cid 0 clust_cnt
  when (if f then false else true) (do res ← clrs_add fuel fid inf.cid; pure tt)
  file_mem_clrs fuel fid l (if f then clust_cnt else clust_cnt + 1)

-- dev_file_reserve: the result, and the list with its numbers
pub file_reserve : ℕ → ℕ → List BlkInfo → ℕ → M (ℕ × List BlkInfo)
file_reserve fuel fid l last_num = if fid == 0 then pure (minus_one, l) else (do
  clust_cnt ← clrs_cnt fid
  if is_neg clust_cnt then pure (minus_one, l) else (do
    l' ← reserve_blocks fid last_num l
    file_mem_clrs fuel fid l' clust_cnt
    res ← write_table
    pure (0, l')))

-- The loop at the end of dev_del_block from `i` with `left` rounds to go.
pub forget_cluster : ℕ → ℕ → ℕ → ℕ → M (Unit {0})
forget_cluster fid cid i zero = pure tt
forget_cluster fid cid i (suc left) = do
  t ← clrs_get fid i
  when (t == cid) (do res ← clrs_set i 0; pure tt)
  forget_cluster fid cid (i + 1) left

-- dev_del_block
pub del_block : ℕ → ℕ → ℕ → M ℕ
del_block fid cid bid = do
  clust_cnt ← clrs_cnt fid
  bl ← read_ctable cid
  let b_len = length (get_blocks bl.entrs fid)
  entrs ← need (own bl.entrs bid 0 0)
  sync_bitmap entrs cid
  res ← write_ctable cid (record bl { entrs = entrs })
  when (b_len == 1) (do forget_cluster fid cid 0 clust_cnt; r ← write_table; pure tt)
  pure res

-- dev_extd_blk_list for a positive count and a list that is not empty: the new length, and the list
-- with the new links behind it.
pub extd_blk_list : ℕ → List BlkInfo → ℕ → ℕ → ℕ → M (ℕ × List BlkInfo)
extd_blk_list fuel inf seq_sz count fid = do
  blks ← free_blocks fuel count
  (res, blks) ← file_reserve fuel fid blks (u32 (seq_sz + minus_one))
  if is_neg res then pure (minus_one, inf) else pure (u32 (seq_sz + length blks), inf ++ blks)
