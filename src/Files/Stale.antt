-- ===== src/Files/Stale.antt =====
-- dev_file_alloc does not look at the cache of dev_tbl_clrs_get: a number that is used again.
use fcfs.Base.{
  ℕ, ◌^◌, ◌≤◌, ◌<◌, ◌≡◌, ◌≢◌, refl, ap, ◌∙◌, true, some, List, length, get_elem?,
  get_elem?-set_here, get_elem?-length, get_or,
}
use fcfs.Base.Monad.{ok}
use fcfs.Structs.{TableEntry}
use fcfs.Volume.{Volume}
use fcfs.Bitmap.{has_free}
use fcfs.Clusters.Coherent.{owners}
use fcfs.Clusters.Ready.{Ready}
use fcfs.Clrs.{clrs_cnt, clrs_get}
use fcfs.Clrs.Cached.{Cached, clrs_get-Cached}
use fcfs.Clrs.Known.{clrs_cnt-Listed}
use fcfs.File.{file_alloc}
use fcfs.File.Alloc.{new_file, file_alloc_lem}

-- When the cache still lists clusters for the number of a new file, one at least, on a volume where
-- the bitmap agrees with the tables of owners and the file table fits its region and the cipher,
-- with a number of 32 bits and a place in that table for the file, byte 0 of the bitmap not full
-- and a free block in some cluster behind cluster 0: dev_file_alloc returns 0 and the entry of the
-- file has its new cluster alone, but dev_tbl_clrs_cnt and dev_tbl_clrs_get go on to return the
-- number and the clusters of the old list.
pub file_alloc-clrs_get :
    (v : Volume) (fid d i a : ℕ) (old : TableEntry) (ids : List ℕ)
    → Ready v
    → get_elem? v.fs_table.entrs fid ≡ some old
    → fid < 2 ^ 32
    → get_or v.fs_bitmap 0 0 ≢ 255
    → 0 < d
    → d < v.fs_head.clu_cnt
    → has_free (owners v d) ≡ true
    → Cached fid ids v.clrs_cache
    → 1 ≤ length ids
    → get_elem? ids i ≡ some a
    → (w : Volume) × (c : ℕ) × (file_alloc fid v ≡ ok 0 w)
      × (get_elem? w.fs_table.entrs fid ≡ some (new_file c))
      × (clrs_cnt fid w ≡ ok (length ids) w)
      × (clrs_get fid i w ≡ ok a w)
file_alloc-clrs_get v fid d i a old ids ready at_fid few room positive inside free cached some_id
      at_i =
    let (w, c, k, made, _, _, done) =
      file_alloc_lem v fid d old ready at_fid few room positive inside free in
    let kept : Cached fid ids w.clrs_cache = rw (ap (λ y. y.clrs_cache) done.rest) cached in
    let place : get_elem? w.fs_table.entrs fid ≡ some (new_file c) =
      ap (λ y. get_elem? y.fs_table.entrs fid) done.rest
      ∙ get_elem?-set_here v.fs_table.entrs fid (new_file c)
          (get_elem?-length v.fs_table.entrs fid old at_fid) in
    (
      w,
      c,
      made,
      place,
      clrs_cnt-Listed w fid (new_file c) ids
          (record { cached = kept; some_id = some_id; at_fid = place; no_second = refl }),
      clrs_get-Cached w fid ids i a kept at_i,
    )
