-- ===== src/Tests/Growing.antt =====
-- Files of the small volume that are made, grow and are removed.
use fcfs.Base.{
  All, ◌<◌, ◌^◌, ℕ, zero, suc, ◌≤◌, ◌≡◌, refl, true, some, [], ◌∷◌, arith, length, replicate,
  get_elem?, ◌⊎◌, take,
}
use fcfs.Base.Monad.{ok}
use fcfs.Structs.{TableEntry}
use fcfs.Volume.{Volume}
use fcfs.Bitmap
use fcfs.Bitmap.{has_free}
use fcfs.Bitmap.Search.{FirstFree}
use fcfs.Device.{bytes_at}
use fcfs.Ctable.{decode, get_hashsum, sum_fids}
use fcfs.Ctable.View.{table_of}
use fcfs.Persist.TableRegion.{IsTable}
use fcfs.Clusters.Coherent.{owners}
use fcfs.Clusters.Ready.{Ready}
use fcfs.Clrs.{first_stage, with_cache, first_addrs, clrs_cnt, clrs_get, clrs_add}
use fcfs.Clrs.FirstStage.{clusters, AtPlace}
use fcfs.Clrs.Cached.{OneStage, clrs_cnt-clrs_get}
use fcfs.Clrs.Known.{Listed, Known, warm}
use fcfs.Clrs.Add.{Added, entry_with, clrs_add-clrs_get}
use fcfs.File.{file_alloc}
use fcfs.File.FirstBlock.{FirstBlock}
use fcfs.File.Alloc.{Allocated, file_alloc_lem}
use fcfs.File.Steps.{Sound, start, behind, alloc, Reach-Sound}
use fcfs.Files.{unlink_file}
use fcfs.Files.Remove.{Unlinked, unlink_file_lem}
use fcfs.Device.{at}
use fcfs.Layout.{IsVolume-kept}
use fcfs.Clrs.{save_sec, load_sec}
use fcfs.Clrs.SecondBlocks.{Saved}
use fcfs.Clrs.Second.{second_buf, save_sec-load_sec}
use fcfs.Tests.Drive.{blank-IsVolume, blank, shifting-IsCipher, blank-Coherent}

blank-IsTable : IsTable blank
blank-IsTable = record {
  clusters = (refl, (refl, (refl, tt)));
  fits = omega arith;
  before_data = omega arith;
}

pub blank-Ready : Ready blank
blank-Ready = record {
  coherent = blank-Coherent;
  table = blank-IsTable;
  cipher = shifting-IsCipher 128;
}

file_alloc_lem_example :
    (w : Volume) × (c k : ℕ) × (file_alloc 2 blank ≡ ok 0 w)
    × FirstFree blank.fs_bitmap 0 c
    × FirstBlock (owners blank c) k
    × Allocated blank 2 c k w
unfolding has_free table_of decode get_hashsum sum_fids bytes_at
file_alloc_lem_example =
    file_alloc_lem blank 2 1 (record { lnk_cnt = 0; clrs = replicate 16 0 }) blank-Ready refl
      (omega arith) (λ e. omega (arith, e)) (omega arith) (omega arith) refl

-- the file with cluster 1
abbrev one_cluster : TableEntry
one_cluster = record { lnk_cnt = 1; clrs = 1 ∷ replicate 15 0 }

blank_addrs :
    (i a : ℕ) → get_elem? (1 ∷ []) i ≡ some a → get_elem? blank.clrs_cache.s0_cl i ≡ some a
blank_addrs zero a h = h
blank_addrs (suc i) a h = absurd (ground (arith, h))

blank-Listed : Listed blank 1 one_cluster (1 ∷ [])
blank-Listed = record {
  cached = record {
    file = refl;
    count = refl;
    few = omega arith;
    space = omega arith;
    second = refl;
    addrs = blank_addrs;
  };
  some_id = omega arith;
  at_fid = refl;
  no_second = refl;
}

blank-Known : Known blank 1 one_cluster (1 ∷ [])
blank-Known = warm blank-Listed

unlink_file_lem_example :
    (w : Volume) × (unlink_file 1 blank ≡ ok true w) × Unlinked blank 1 one_cluster (1 ∷ []) w
unlink_file_lem_example =
    unlink_file_lem blank 1 one_cluster (1 ∷ []) blank-Ready (λ e. omega (arith, e)) blank-Known
      ((λ e. omega (arith, e), omega arith), tt) (omega arith)

clrs_add-clrs_get_example :
    (w : Volume) × (clrs_add 0 1 5 blank ≡ ok 0 w)
    × (clrs_cnt 1 w ≡ ok 2 w)
    × (clrs_get 1 1 w ≡ ok 5 w)
    × Added blank 1 (entry_with one_cluster 1 5) (1 ∷ 5 ∷ []) w
clrs_add-clrs_get_example =
    clrs_add-clrs_get blank 0 1 5 1 5 one_cluster (1 ∷ []) blank-Ready blank-Listed (omega arith)
      refl

-- the small volume when the cache is that of the root directory
abbrev other_cache : Volume
other_cache =
    with_cache blank
      (record { fid = 0; s0_cl = replicate 13 0; s0_cnt = 1; s1_cl = []; s1_cnt = 0 })

other_cache-OneStage : OneStage other_cache 1 one_cluster
other_cache-OneStage = record {
  file = λ e. omega (arith, e);
  entry = refl;
  second = refl;
  other = refl;
  space = omega arith;
}

clrs_cnt-clrs_get_example :
    (w : Volume) × (a : ℕ) × (clrs_cnt 1 other_cache ≡ ok 1 w)
    × (w ≡ with_cache other_cache w.clrs_cache)
    × (1 ≤ first_stage)
    × ((length (clusters 1 one_cluster) ≡ length (take first_stage one_cluster.clrs))
        ⊎ (get_elem? one_cluster.clrs 1 ≡ some 0))
    × (clrs_get 1 0 w ≡ ok a w)
    × AtPlace one_cluster.clrs 0 a
unfolding first_addrs
clrs_cnt-clrs_get_example =
    clrs_cnt-clrs_get other_cache 1 one_cluster 0 other_cache-OneStage (omega arith)

-- a file is made
blank_alloc : (w : Volume) × (file_alloc 2 blank ≡ ok 0 w)
unfolding has_free table_of decode get_hashsum sum_fids bytes_at
blank_alloc =
    let (w, _, _, eq, _, _, _) =
      file_alloc_lem blank 2 1 (record { lnk_cnt = 0; clrs = replicate 16 0 }) blank-Ready refl
        (omega arith) (λ e. omega (arith, e)) (omega arith) (omega arith) refl in
    (w, eq)

Reach-Sound_example : Sound blank (blank_alloc.0)
unfolding has_free table_of decode get_hashsum sum_fids bytes_at
Reach-Sound_example =
    Reach-Sound
      (behind start (
        alloc 2 1 0 (record { lnk_cnt = 0; clrs = replicate 16 0 }) refl (omega arith)
          (λ e. omega (arith, e)) (omega arith) (omega arith) refl (blank_alloc.1)))
      blank-Ready

-- the small volume with a second stage in the cache
abbrev two_stages : Volume
two_stages =
    with_cache blank
      (record { fid = 1; s0_cl = replicate 13 1; s0_cnt = 13; s1_cl = replicate 95 7; s1_cnt = 3 })

small_words : (n : ℕ) → All (λ w. w < 2 ^ 32) (replicate n 7)
small_words zero = tt
small_words (suc n) = (omega arith, small_words n)

save_sec-load_sec_example :
    (w : Volume) × (p : ℕ) × (save_sec 1 two_stages ≡ ok 0 w)
    × Saved two_stages 1 1 6 (second_buf two_stages.clrs_cache) w
    × (load_sec 1 w
        ≡ ok 3 (
            with_cache
              (at w p)
              (record two_stages.clrs_cache { s1_cl = take 95 (replicate 95 7) })))
save_sec-load_sec_example =
    save_sec-load_sec two_stages 1
      (IsVolume-kept blank two_stages refl refl refl blank-IsVolume.flag_bytes blank-IsVolume)
      (omega arith) (omega arith) (small_words 95) (omega arith)
