-- ===== src/FileSeq.antt =====
-- fcfs/src/dev/file.c: the list of a file's blocks, behind the cache, and the length that the first
-- block of a file holds.
pub mod Blocks
pub mod Cached
use fcfs.Base.{
  ℕ, zero, suc, ◌+◌, ◌-◌, not, ◌&&◌, Option, none, some, List, [], ◌∷◌, ◌++◌, map, ltb, ◌==◌,
  if◌then◌else◌, length, get_or, take, drop,
}
use fcfs.Base.Bytes.{to_le, from_le}
use fcfs.Base.Monad.{fault, out_of_fuel, ◌>>=◌, ◌>>◌, pure, need}
use fcfs.Base.Words.{minus_one, u8}
use fcfs.Structs.{BlkInfo, BlockListEntry, sizeof_file_header}
use fcfs.Volume.{M}
use fcfs.Device.{get_blocks}
use fcfs.Ctable.{read_ctable}
use fcfs.Clrs.{clrs_cnt, clrs_get}
use fcfs.Seq.{sort, read_by_id, write_by_id}
use fcfs.File.{extd_blk_list}
use fcfs.Cache.{Maps, D, on_volume, new_list, list_of, set_list, cache_seq_get, cache_seq_add}

-- The links to the blocks `bids` of a cluster, with their logical numbers.
unfoldable pub cluster_links : ℕ → List BlockListEntry → List ℕ → List BlkInfo
cluster_links cid entrs bids =
    map
      (λ bid. record {
        cid = cid;
        bid = u8 bid;
        num = (get_or entrs (bid - 1) (record { fid = 0; num = 0 })).num;
      })
      bids

-- The loop over clusters of dev_get_file_seq from `i` with `left` rounds to go.
unfoldable pub collect : ℕ → ℕ → ℕ → M (List BlkInfo)
collect fid i zero = pure []
collect fid i (suc left) = do
  cid ← clrs_get fid i
  if not (fid == 0) && cid == 0 then pure [] else (do
    bl ← read_ctable cid
    let found = cluster_links cid bl.entrs (get_blocks bl.entrs fid)
    if fid == 0 then pure found else (do rest ← collect fid (i + 1) left; pure (found ++ rest)))

-- dev_get_file_seq up to the cache: a file with no block leaves a freed link as the list.
unfoldable pub read_seq : ℕ → M (List BlkInfo)
read_seq fid = do
  clust_cnt ← clrs_cnt fid
  found ← collect fid 0 clust_cnt
  elim found [
    | [] ↦ λ _. fault
    | inf ∷ l ↦ elim (sort 2 (inf ∷ l)) [ none ↦ λ _. out_of_fuel | some sorted ↦ pure sorted ]
  ]

-- `memcpy(&fh, buf, sizeof(fcfs_file_header_t))` and `memcpy(buf, &fh, sizeof(fcfs_file_header_t))`
abbrev pub header_of : List ℕ → Option ℕ
header_of buf = if ltb (length buf) sizeof_file_header then none else some (from_le (take 4 buf))

abbrev pub with_header : ℕ → List ℕ → Option (List ℕ)
with_header size buf =
    if ltb (length buf) sizeof_file_header then none else some (to_le 4 size ++ drop 4 buf)

module _ (m : Maps) where
  -- dev_get_file_seq: the list and its length
  unfoldable pub get_file_seq : ℕ → D m (ℕ × ℕ)
  get_file_seq fid = do
    t ← cache_seq_get m fid
    elim t [
      | some hit ↦ pure hit
      | none ↦ (do
        l ← on_volume m (read_seq fid)
        h ← new_list m l
        cache_seq_add m fid h
        pure (h, length l))
    ]

  -- dev_read_by_id and dev_write_by_id on a list
  abbrev pub read_from : ℕ → ℕ → ℕ → D m (Option (List ℕ))
  read_from id h seq_sz = do l ← list_of m h; on_volume m (read_by_id id l seq_sz)

  abbrev pub write_to : ℕ → List ℕ → ℕ → ℕ → D m ℕ
  write_to id buf h seq_sz = do l ← list_of m h; on_volume m (write_by_id id buf l seq_sz)

  -- dev_extd_blk_list, which appends to the list in place
  pub extend : ℕ → ℕ → ℕ → ℕ → ℕ → D m ℕ
  extend fuel h seq_sz count fid = do
    l ← list_of m h
    (new_sz, longer) ← on_volume m (extd_blk_list fuel l seq_sz count fid)
    set_list m h longer
    pure new_sz

  -- dev_file_size
  unfoldable pub file_size : ℕ → D m ℕ
  file_size fid = do
    (h, seq_sz) ← get_file_seq fid
    r ← read_from 0 h seq_sz
    elim r [ none ↦ pure minus_one | some buf ↦ need (header_of buf) ]

  -- dev_set_file_size
  unfoldable pub set_file_size : ℕ → ℕ → D m ℕ
  set_file_size fid size = do
    (h, seq_sz) ← get_file_seq fid
    r ← read_from 0 h seq_sz
    elim r [
      | none ↦ pure minus_one
      | some buf ↦ (do longer ← need (with_header size buf); write_to 0 longer h seq_sz)
    ]
