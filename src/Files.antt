-- ===== src/Files.antt =====
-- fcfs/src/dev/file.c: files made and removed, with their entries in a directory.
pub mod Disown
pub mod Release
pub mod Remove
pub mod Lifetime
pub mod Stale
use fcfs.Base.{
  ℕ, zero, suc, ◌+◌, ◌-◌, Bool, ◌||◌, Option, none, some, List, [], ◌∷◌, ◌++◌, ltb, ◌==◌,
  if◌then◌else◌, length, replicate,
}
use fcfs.Base.Monad.{◌>>=◌, ◌>>◌, pure, need}
use fcfs.Base.Words.{is_neg, minus_one, u8, u16}
use fcfs.Structs.{BlockListEntry}
use fcfs.Utils.{Text}
use fcfs.Volume.{M}
use fcfs.Device.{get_blocks}
use fcfs.Ctable.{read_ctable, write_ctable}
use fcfs.Persist.{write_table}
use fcfs.Clusters.{sync_bitmap}
use fcfs.Clrs.{when, entry, clrs_cnt, clrs_get}
use fcfs.File.{set_entry, own, file_alloc}
use fcfs.Cache.{Maps, D, on_volume}
use fcfs.Dir.{max_file_name_length, read_dir, write_dir, rm_from_dir}

-- -ENOENT
abbrev pub enoent : ℕ
enoent = minus_one - 1

-- The loop of dev_rm_file over the blocks of a cluster.
pub disown : List BlockListEntry → List ℕ → Option (List BlockListEntry)
disown entrs [] = some entrs
disown entrs (bid ∷ bids) = elim (own entrs bid 0 0) [
  | none ↦ none
  | some entrs' ↦ disown entrs' bids
]

-- The loop of dev_rm_file over the clusters from `i` with `left` rounds to go.
pub release_clusters : ℕ → ℕ → ℕ → M (Unit {0})
release_clusters fid i zero = pure tt
release_clusters fid i (suc left) = do
  cid ← clrs_get fid i
  if cid == 0 then pure tt else (do
    bl ← read_ctable cid
    let blist = get_blocks bl.entrs fid
    entrs ← need (disown bl.entrs blist)
    when (if length blist == 0 then Bool.false else Bool.true)
        (do res ← write_ctable cid (record bl { entrs = entrs }); sync_bitmap entrs cid)
    release_clusters fid (i + 1) left)

-- dev_rm_file up to the directory: whether the file is gone
pub unlink_file : ℕ → M Bool
unlink_file fid = do
  e ← entry fid
  clust_cnt ← clrs_cnt fid
  set_entry fid (record e { lnk_cnt = u8 (e.lnk_cnt + 255) })
  if u8 (e.lnk_cnt + 255) == 0
      then (do release_clusters fid 0 clust_cnt; pure Bool.true)
      else pure Bool.false

-- `strcpy` into the name of an entry of zeros; a name with no room for its terminator is written
-- behind the array.
pub name_field : Text → Option (List ℕ)
name_field name =
    if ltb (length name) max_file_name_length
    then some (name ++ replicate (max_file_name_length - length name) 0)
    else none

module _ (m : Maps) where
  -- dev_rm_file
  pub rm_file : ℕ → ℕ → ℕ → D m ℕ
  rm_file fuel fid pfid = if fid == 0 then pure minus_one else (do
    gone ← on_volume m (unlink_file fid)
    if gone
        then (do r ← rm_from_dir m fuel pfid fid; w ← on_volume m write_table; pure 0)
        else pure minus_one)

  -- dev_create_file at time `now`. The result of dev_file_alloc is not looked at.
  pub create_file : ℕ → ℕ → ℕ → Text → ℕ → ℕ → D m ℕ
  create_file fuel pfid fid name mode now = if fid == 0 || is_neg fid then pure enoent else (do
    dirs ← read_dir m pfid
    res ← on_volume m (file_alloc fid)
    field ← need (name_field name)
    write_dir m fuel pfid (
        elim dirs [ none ↦ [] | some ents ↦ ents ]
        ++ record {
          fid = u16 fid;
          mode = mode;
          ctime = now;
          atime = now;
          mtime = now;
          name = field;
        }
          ∷ []))
