-- ===== src/Tests/Searches.antt =====
-- The bitmap, the file numbers and the list of blocks at concrete inputs.
use fcfs.Base.{
  ℕ, ◌*◌, ◌/◌, ◌%◌, ◌+◌, ◌<◌, ◌≡◌, refl, not, Bool, none, some, List, replicate, [], ◌∷◌, arith,
}
use fcfs.Base.Monad.{ok}
use fcfs.Structs.{BlockListEntry, BlkInfo}
use fcfs.Bitmap.{
  has_free, mask_bit, set_bit, upd_byte, first_clear, scan, upd_bitmap, free_cluster_from,
}
use fcfs.Bitmap.Update.{used, Updated, upd_bitmap_lem}
use fcfs.Bitmap.Search.{FirstFree, free_cluster_from_lem}
use fcfs.Bitmap.Faults.{free_cluster_from-skips, free_cluster_from-overrun}
use fcfs.Clusters.{free_fid}
use fcfs.Clusters.FreeFid.{FreeFid, free_fid_lem}
use fcfs.Seq.{sort}
use fcfs.Seq.Sort.{first_two, sort-first_two}
use fcfs.Tests.Drive.{blank}

-- a cluster with one free block, and one without
abbrev roomy : List BlockListEntry
roomy = record { fid = 4; num = 1 } ∷ record { fid = 0; num = 0 } ∷ []

abbrev packed : List BlockListEntry
packed = record { fid = 4; num = 1 } ∷ record { fid = 5; num = 1 } ∷ []

upd_bitmap_lem_example :
    (r : Bool × List ℕ) × (upd_bitmap (255 ∷ 64 ∷ []) roomy 9 ≡ some r)
    × Updated (255 ∷ 64 ∷ []) (not (has_free roomy)) 9 r
upd_bitmap_lem_example =
    upd_bitmap_lem (255 ∷ 64 ∷ []) roomy 9 (omega arith, (omega arith, tt)) (omega arith)
      (omega arith)

upd_bitmap_sets : upd_bitmap (255 ∷ 0 ∷ []) packed 9 ≡ some (Bool.true, 255 ∷ 64 ∷ [])
unfolding upd_bitmap upd_byte mask_bit set_bit has_free
upd_bitmap_sets = refl

free_cluster_from_lem_example :
    (c : ℕ) × (free_cluster_from (192 ∷ 255 ∷ 127 ∷ []) 3 1 ≡ some c)
    × FirstFree (192 ∷ 255 ∷ 127 ∷ []) 1 c
unfolding used mask_bit
free_cluster_from_lem_example =
    free_cluster_from_lem (192 ∷ 255 ∷ 127 ∷ []) 3 1 16
      (omega arith, (omega arith, (omega arith, tt))) (omega arith) (omega arith) (omega arith)
      (omega arith) (omega arith) refl

-- Clusters 8 to 10 are free, and the search behind cluster 2 answers 11.
free_cluster_from-skips_example : (2 / 8 + 1) * 8 + 2 % 8 < 11
unfolding free_cluster_from scan first_clear mask_bit
free_cluster_from-skips_example =
    free_cluster_from-skips (255 ∷ 0 ∷ []) 2 2 11 (omega arith) (omega arith) (omega arith) refl
      refl (omega arith)

free_cluster_from-overrun_example : free_cluster_from (255 ∷ 255 ∷ []) 16 0 ≡ none
free_cluster_from-overrun_example =
    free_cluster_from-overrun (255 ∷ 255 ∷ []) 16 0 (omega arith) (refl, (refl, tt)) (omega arith)
      (omega arith)

free_fid_lem_example : (fid : ℕ) × (free_fid blank ≡ ok fid blank) × FreeFid blank fid
free_fid_lem_example =
    free_fid_lem blank 2 (record { lnk_cnt = 0; clrs = replicate 16 0 }) (omega arith) (omega arith)
      refl refl

abbrev blk : ℕ → BlkInfo
blk num = record { cid = 1; bid = num + 1; num = num }

sort-first_two_example : sort 2 (blk 2 ∷ blk 1 ∷ blk 0 ∷ []) ≡ some (blk 1 ∷ blk 2 ∷ blk 0 ∷ [])
unfolding first_two
sort-first_two_example = sort-first_two 0 (blk 2 ∷ blk 1 ∷ blk 0 ∷ [])

numbers_of : List BlkInfo → ℕ
numbers_of (a ∷ b ∷ r) = a.num + 10 * b.num
numbers_of l = 0
