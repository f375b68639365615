-- ===== src/File/MemClrs.antt =====
-- dev_file_mem_clrs: the clusters of new blocks are added to the file's list.
use fcfs.Base.{
  ℕ, suc, ◌+◌, ◌≤◌, ◌≡◌, refl, ap, ◌∙◌, inl, inr, some, List, [], ◌∷◌, ◌++◌, arith, ◌==◌, length,
  length-append, get_elem?, Bool-cases, ◌<◌,
}
use fcfs.Base.Monad.{ok}
use fcfs.Structs.{TableEntry, BlkInfo}
use fcfs.Volume.{Volume}
use fcfs.Device.Owned.{member}
use fcfs.Clusters.Ready.{Ready, Ready-clusters}
use fcfs.Clrs.{when, first_stage}
use fcfs.Clrs.Cached.{Cached, clrs_get-Cached}
use fcfs.Clrs.Known.{Listed}
use fcfs.Clrs.Add.{Added, entry_with, clrs_add-Listed}
use fcfs.File.Lengthened.{all_clusters, Lengthened, Lengthened-refl, Lengthened-entry_with}
use fcfs.File.{has_cluster, file_mem_clrs}

has_cluster-member :
    (v : Volume) (fid cid i : ℕ) (ids rest : List ℕ)
    → Cached fid ids v.clrs_cache
    → ((j a : ℕ) → get_elem? rest j ≡ some a → get_elem? ids (i + j) ≡ some a)
    → has_cluster fid cid i (length rest) v ≡ ok (member cid rest) v
unfolding has_cluster
has_cluster-member v fid cid i ids [] c place = refl
has_cluster-member v fid cid i ids (a ∷ rest) c place =
    let here : get_elem? ids i ≡ some a =
      ap (get_elem? ids) {x = i} {y = i + 0} (omega arith) ∙ place 0 a refl in
    let later = has_cluster-member v fid cid (i + 1) ids rest c (λ j b at_j.
      ap (get_elem? ids) {x = i + 1 + j} {y = i + suc j} (omega arith) ∙ place (suc j) b at_j) in
    let test : (a == cid) ≡ (cid == a) = ground arith in
    elim (Bool-cases (cid == a)) [
      | inl found ↦ rw (clrs_get-Cached v fid ids i a c here, test, found) refl
      | inr other ↦ rw (clrs_get-Cached v fid ids i a c here, test, other) later
    ]

Added-behind :
    (v w x : Volume) (fid : ℕ) (e f : TableEntry) (ids ids' : List ℕ)
    → Added v fid e ids w
    → Added w fid f ids' x
    → Added v fid f ids' x
Added-behind v w x fid e f ids ids' a b = record {
  ready = b.ready;
  listed = b.listed;
  other_entries = λ k ne. b.other_entries k ne ∙ a.other_entries k ne;
  blocks = λ c k. b.blocks c k ∙ a.blocks c k;
  head = b.head ∙ a.head;
  flags = b.flags ∙ a.flags;
  ciph = b.ciph ∙ a.ciph;
}

-- dev_file_mem_clrs for a file without a second stage, when its clusters and those of the links are
-- 13 at most: it ends, and every cluster of the links that the file did not have is listed once, in
-- the cache and in the file's entry.
pub file_mem_clrs-Listed :
    (v : Volume) (fuel fid : ℕ) (e : TableEntry) (ids : List ℕ) (l : List BlkInfo)
    → Ready v
    → Listed v fid e ids
    → length ids + length l ≤ first_stage
    → (w : Volume) × (f : TableEntry) × (file_mem_clrs fuel fid l (length ids) v ≡ ok tt w)
      × Added v fid f (all_clusters ids l) w
      × Lengthened e ids (all_clusters ids l) f
unfolding file_mem_clrs
file_mem_clrs-Listed v fuel fid e ids [] ready k few = (
  v,
  e,
  refl,
  record {
    ready = ready;
    listed = k;
    blocks = λ c b. refl;
    head = refl;
    flags = refl;
    ciph = refl;
    other_entries = λ k ne. refl;
  },
  Lengthened-refl e ids,
)
file_mem_clrs-Listed v fuel fid e ids (inf ∷ l) ready k few =
    let search =
      has_cluster-member v fid inf.cid 0 ids ids k.cached
        (λ j a h. ap (get_elem? ids) {x = 0 + j} {y = j} (omega arith) ∙ h) in
    elim (Bool-cases (member inf.cid ids)) [
      | inl has ↦
          let (w, f, eq, added, g) =
            file_mem_clrs-Listed v fuel fid e ids l ready k (omega (arith, few)) in
          (w, f, rw (search, has, when) eq, rw has added, rw has g)
      | inr new ↦
          let (u, added_one, a) =
            clrs_add-Listed v fuel fid inf.cid e ids ready k (omega (arith, few)) in
          let more : length (ids ++ inf.cid ∷ []) ≡ length ids + 1 =
            length-append ids (inf.cid ∷ []) in
          let inside : length ids < length e.clrs =
            omega (arith, few, Ready-clusters v fid e ready k.at_fid) in
          let (w, f, eq, b, g) =
            file_mem_clrs-Listed u fuel fid (entry_with e (length ids) inf.cid)
              (ids ++ inf.cid ∷ []) l a.ready a.listed (omega (arith, few, more)) in
          (
            w,
            f,
            rw (search, new, when, added_one, ← more) eq,
            rw new (
                Added-behind v u w fid (entry_with e (length ids) inf.cid) f (ids ++ inf.cid ∷ []) _
                  a b),
            rw new (Lengthened-entry_with e f ids inf.cid l inside g),
          )
    ]
