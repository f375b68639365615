-- ===== src/Tests/Lifetimes.antt =====
-- Files of the small volume that are made and removed, and numbers that are used again.
use fcfs.Base.{
  ℕ, zero, suc, ◌<◌, ◌≢◌, ap, sym, none, ◌≤◌, ◌≡◌, refl, true, some, [], ◌∷◌, arith, replicate,
  get_elem?,
}
use fcfs.Base.Monad.{ok}
use fcfs.Structs.{BlockListEntry, TableEntry}
use fcfs.Volume.{Volume}
use fcfs.Bitmap.{has_free}
use fcfs.Device.{at, bytes_at, blocks_from, get_blocks}
use fcfs.Device.Blocks.{raw}
use fcfs.Ctable.{decode, get_hashsum, sum_fids}
use fcfs.Ctable.View.{table_of}
use fcfs.Clusters.Coherent.{Coherent-kept}
use fcfs.Clusters.{full_free_cluster}
use fcfs.Clusters.Ready.{Ready, Ready-kept}
use fcfs.Clrs.{with_cache, clrs_cnt, clrs_get}
use fcfs.Clrs.Cached.{Cached}
use fcfs.File.{file_alloc}
use fcfs.File.Owner.{owner}
use fcfs.File.Alloc.{new_file}
use fcfs.Files.{unlink_file}
use fcfs.Files.Lifetime.{OwnedAlike, file_alloc-unlink_file}
use fcfs.Files.Stale.{file_alloc-clrs_get}
use fcfs.Clusters.FullFree.{FirstWhole, full_free_cluster_lem}
use fcfs.Tests.Drive.{blank, blank-Coherent}
use fcfs.Tests.Growing.{blank-Ready}

-- cluster 1 has no owner
full_free_cluster_lem_example :
    (q c : ℕ) × (full_free_cluster 1 0 blank ≡ ok c (at blank q)) × FirstWhole blank 0 c
unfolding get_blocks blocks_from table_of decode get_hashsum sum_fids bytes_at
full_free_cluster_lem_example =
    full_free_cluster_lem blank 1 1 blank-Coherent (λ e. omega (arith, e)) (omega arith)
      (omega arith) (omega arith) refl

abbrev no_links : TableEntry
no_links = record { lnk_cnt = 0; clrs = replicate 16 0 }

free_entries :
    (n i : ℕ) (o : BlockListEntry)
    → get_elem? (replicate n (record { fid = 0; num = 0 })) i ≡ some o
    → o.fid ≡ 0
free_entries zero i o h = absurd (ground (arith, h))
free_entries (suc n) zero o h = ap (λ x. elim x [ none ↦ 0 | some y ↦ y.fid ]) (sym h)
free_entries (suc n) (suc i) o h = free_entries n i o h

-- no block has an owner
blank_unowned : (c i : ℕ) (o : BlockListEntry) → owner blank c i ≡ some o → o.fid ≢ 2
unfolding table_of decode get_hashsum sum_fids bytes_at
blank_unowned c i o h e = absurd (omega (arith, e, free_entries 7 i o h))

file_alloc-unlink_file_example :
    (w x : Volume) × (file_alloc 2 blank ≡ ok 0 w)
    × (unlink_file 2 w ≡ ok true x)
    × Ready x
    × OwnedAlike blank x
    × ((c b : ℕ) → 1 ≤ b → b < 8 → raw x c b ≡ raw blank c b)
unfolding has_free table_of decode get_hashsum sum_fids bytes_at
file_alloc-unlink_file_example =
    file_alloc-unlink_file blank 2 1 no_links blank-Ready refl (λ e. omega (arith, e)) (omega arith)
      refl (omega arith) (omega arith) (λ e. omega (arith, e)) (omega arith) (omega arith) refl
      blank_unowned

-- file 2 has been removed, and the cache still lists its cluster
abbrev stale : Volume
stale =
    with_cache blank
      (record { fid = 2; s0_cl = 9 ∷ replicate 12 0; s0_cnt = 1; s1_cl = []; s1_cnt = 0 })

stale-Ready : Ready stale
stale-Ready =
    Ready-kept blank stale refl refl refl
      (Coherent-kept blank stale refl refl refl (λ c. refl) blank-Coherent) blank-Ready

stale_addrs :
    (i a : ℕ) → get_elem? (9 ∷ []) i ≡ some a → get_elem? stale.clrs_cache.s0_cl i ≡ some a
stale_addrs zero a h = h
stale_addrs (suc i) a h = absurd (ground (arith, h))

stale-Cached : Cached 2 (9 ∷ []) stale.clrs_cache
stale-Cached = record {
  file = refl;
  count = refl;
  few = omega arith;
  space = omega arith;
  second = refl;
  addrs = stale_addrs;
}

file_alloc-clrs_get_example :
    (w : Volume) × (c : ℕ) × (file_alloc 2 stale ≡ ok 0 w)
    × (get_elem? w.fs_table.entrs 2 ≡ some (new_file c))
    × (clrs_cnt 2 w ≡ ok 1 w)
    × (clrs_get 2 0 w ≡ ok 9 w)
unfolding has_free table_of decode get_hashsum sum_fids bytes_at
file_alloc-clrs_get_example =
    file_alloc-clrs_get stale 2 1 0 9 no_links (9 ∷ []) stale-Ready refl (omega arith)
      (λ e. omega (arith, e)) (omega arith) (omega arith) refl stale-Cached (omega arith) refl
