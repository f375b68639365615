-- ===== src/File/Lengthened.antt =====
-- The clusters of a file and its entry in the file table when the clusters of new blocks have been
-- added.
use fcfs.Base.{
  ℕ, ◌+◌, ◌≤◌, ◌<◌, ◌≡◌, ◌≢◌, refl, ap, ◌∙◌, sym, ◌⊎◌, inl, inr, none, some, List, [], ◌∷◌, ◌++◌,
  arith, ◌==◌, ==→eq, if◌then◌else◌, length, length-append, get_elem?, get_elem?-last,
  get_elem?-length, get_elem?-set_here, get_elem?-set_other, set, Bool-cases,
}
use fcfs.Base.Words.{u16}
use fcfs.Structs.{TableEntry, BlkInfo}
use fcfs.Device.Owned.{member}
use fcfs.Clrs.Cached.{get_elem?-append}
use fcfs.Clrs.Add.{entry_with}

≤-cases : (n i : ℕ) → n ≤ i → (n ≡ i) ⊎ (n < i)
≤-cases n i le = elim (Bool-cases (n == i)) [
  | inl same ↦ inl (==→eq n i same)
  | inr other ↦ inr (ground (arith, other, le))
]

-- The file's clusters behind dev_file_mem_clrs.
abbrev pub all_clusters : List ℕ → List BlkInfo → List ℕ
all_clusters ids [] = ids
all_clusters ids (inf ∷ l) =
    all_clusters (if member inf.cid ids then ids else ids ++ inf.cid ∷ []) l

all_clusters-kept :
    (ids : List ℕ) (l : List BlkInfo) (i a : ℕ)
    → get_elem? ids i ≡ some a
    → get_elem? (all_clusters ids l) i ≡ some a
all_clusters-kept ids [] i a h = h
all_clusters-kept ids (inf ∷ l) i a h = elim (Bool-cases (member inf.cid ids)) [
  | inl has ↦ rw has (all_clusters-kept ids l i a h)
  | inr new ↦
      rw new
        (all_clusters-kept (ids ++ inf.cid ∷ []) l i a (get_elem?-append ids (inf.cid ∷ []) i a h))
]

length-all_clusters : (ids : List ℕ) (l : List BlkInfo) → length ids ≤ length (all_clusters ids l)
length-all_clusters ids [] = omega arith
length-all_clusters ids (inf ∷ l) = elim (Bool-cases (member inf.cid ids)) [
  | inl has ↦ rw has (length-all_clusters ids l)
  | inr new ↦
      rw new (
        omega
          (arith, length-all_clusters (ids ++ inf.cid ∷ []) l, length-append ids (inf.cid ∷ [])))
]

-- The entry `f` that a file has when its clusters have become `is`, in place of `e` with the clusters
-- `ids`: the new numbers behind the old ones, and nothing else.
pub record Lengthened (e : TableEntry) (ids is : List ℕ) (f : TableEntry) : Type 0 where
  pub link_count : f.lnk_cnt ≡ e.lnk_cnt
  pub old : (i : ℕ) → i < length ids → get_elem? f.clrs i ≡ get_elem? e.clrs i
  pub new : (i a : ℕ) → length ids ≤ i → get_elem? is i ≡ some a → get_elem? f.clrs i ≡ some (u16 a)
  pub rest : (i : ℕ) → length is ≤ i → get_elem? f.clrs i ≡ get_elem? e.clrs i

pub Lengthened-refl : (e : TableEntry) (ids : List ℕ) → Lengthened e ids ids e
Lengthened-refl e ids = record {
  link_count = refl;
  old = λ i lt. refl;
  new = λ i a le at_i. absurd (omega (arith, le, get_elem?-length ids i a at_i));
  rest = λ i le. refl;
}

-- One number more in front.
pub Lengthened-entry_with :
    (e f : TableEntry) (ids : List ℕ) (id : ℕ) (l : List BlkInfo)
    → length ids < length e.clrs
    → Lengthened (entry_with e (length ids) id) (ids ++ id ∷ []) (all_clusters (ids ++ id ∷ []) l) f
    → Lengthened e ids (all_clusters (ids ++ id ∷ []) l) f
Lengthened-entry_with e f ids id l inside g =
    let n : ℕ = length ids in
    let more : length (ids ++ id ∷ []) ≡ n + 1 = length-append ids (id ∷ []) in
    let is : List ℕ = all_clusters (ids ++ id ∷ []) l in
    let beside : (i : ℕ) → n ≢ i → get_elem? (set e.clrs n (u16 id)) i ≡ get_elem? e.clrs i =
      λ i ne. get_elem?-set_other e.clrs n i (u16 id) ne in
    record {
      link_count = g.link_count;
      old =
          λ i lt. g.old i (omega (arith, more, lt)) ∙ beside i (λ q. absurd (omega (arith, q, lt)));
      new = λ i a le at_i. elim (≤-cases n i le) [
        | inl same ↦
            let last : get_elem? is i ≡ some id =
              all_clusters-kept (ids ++ id ∷ []) l i id
                (ap (get_elem? (ids ++ id ∷ [])) (sym same) ∙ get_elem?-last ids id) in
            g.old i (omega (arith, more, same))
            ∙ ap (get_elem? (set e.clrs n (u16 id))) (sym same)
            ∙ get_elem?-set_here e.clrs n (u16 id) inside
            ∙ ap (λ o. elim o [ none ↦ none | some x ↦ some (u16 x) ]) (sym last ∙ at_i)
        | inr behind ↦ g.new i a (omega (arith, more, behind)) at_i
      ];
      rest = λ i le.
          g.rest i le
          ∙ beside i
              (λ q. absurd (omega (arith, q, le, more, length-all_clusters (ids ++ id ∷ []) l)));
    }
