-- ===== src/Clusters/FreeFid.antt =====
-- dev_free_fid: the least file number that is not in use.
use fcfs.Base.{
  ℕ, zero, suc, ◌+◌, ◌-◌, ◌≤◌, ◌<◌, ◌≡◌, ◌≢◌, refl, ap, sym, false, ◌∙◌, Option, none, some, List,
  [], ◌∷◌, arith, ◌==◌, drop, get_elem?, Bool-cases, inl, inr, ==→eq,
}
use fcfs.Base.Monad.{ok}
use fcfs.Structs.{TableEntry}
use fcfs.Volume.{Volume}
use fcfs.Clusters.{free_fid_from, free_fid}

-- File `i + k` is the first of the entries from number `i` on that no link counts.
record Least (es : List TableEntry) (k : ℕ) : Type 0 where
  unlinked : TableEntry
  there : get_elem? es k ≡ some unlinked
  unused : unlinked.lnk_cnt ≡ 0
  before : (j : ℕ) (e : TableEntry) → j < k → get_elem? es j ≡ some e → e.lnk_cnt ≢ 0

abbrev links_of : Option TableEntry → ℕ
links_of none = 0
links_of (some e) = e.lnk_cnt

head_linked :
    (x : TableEntry) (es : List TableEntry) (k : ℕ) (e : TableEntry)
    → (x.lnk_cnt == 0) ≡ false
    → get_elem? (x ∷ es) k ≡ some e
    → e.lnk_cnt ≡ 0
    → 1 ≤ k
head_linked x es zero e linked there unused =
    let same : x.lnk_cnt ≡ e.lnk_cnt = ap links_of there in absurd (ground arith)
head_linked x es (suc k) e linked there unused = omega arith

Least-later :
    (x : TableEntry) (es : List TableEntry) (j : ℕ)
    → (x.lnk_cnt == 0) ≡ false
    → Least es j
    → Least (x ∷ es) (suc j)
Least-later x es j linked r = record {
  unlinked = r.unlinked;
  there = r.there;
  unused = r.unused;
  before = earlier;
}
  where
    earlier : (m : ℕ) (e : TableEntry) → m < suc j → get_elem? (x ∷ es) m ≡ some e → e.lnk_cnt ≢ 0
    earlier zero e h there unused =
        absurd (omega (arith, head_linked x es zero e linked there unused))
    earlier (suc m) e h there unused = r.before m e (omega arith) there unused

free_fid_from-Least :
    (es : List TableEntry) (i left k : ℕ) (e : TableEntry)
    → k < left
    → get_elem? es k ≡ some e
    → e.lnk_cnt ≡ 0
    → (j : ℕ) × (free_fid_from es i left ≡ some (i + j)) × Least es j
unfolding free_fid_from
free_fid_from-Least [] i left k e lt there unused = absurd (cc)
free_fid_from-Least (x ∷ es) i zero k e lt there unused = absurd (omega arith)
free_fid_from-Least (x ∷ es) i (suc left) k e lt there unused = elim (Bool-cases (x.lnk_cnt == 0)) [
  | inl zero_links ↦ (
    0,
    rw zero_links (ap some {x = i} (omega arith)),
    record {
      unlinked = x;
      there = refl;
      unused = ==→eq _ _ zero_links;
      before = λ j e' h. absurd (omega arith);
    },
  )
  | inr linked ↦
      let k' : k ≡ suc (k - 1) = ground (arith, head_linked x es k e linked there unused) in
      let (j, eq, r) =
        free_fid_from-Least es (i + 1) left (k - 1) e (omega arith)
          (ap (get_elem? (x ∷ es)) (sym k') ∙ there) unused in
      (suc j, rw linked (eq ∙ ap some {x = i + 1 + j} (omega arith)), Least-later x es j linked r)
]

get_elem?-drop_one : (es : List TableEntry) (j : ℕ) → get_elem? (drop 1 es) j ≡ get_elem? es (suc j)
get_elem?-drop_one [] j = refl
get_elem?-drop_one (x ∷ es) j = refl

-- The least file number from 1 on that no link counts.
pub record FreeFid (v : Volume) (fid : ℕ) : Type 0 where
  pub unlinked : TableEntry
  pub positive : 1 ≤ fid
  pub there : get_elem? v.fs_table.entrs fid ≡ some unlinked
  pub unused : unlinked.lnk_cnt ≡ 0
  pub before :
      (j : ℕ) (e : TableEntry)
      → 1 ≤ j
      → j < fid
      → get_elem? v.fs_table.entrs j ≡ some e
      → e.lnk_cnt ≢ 0

-- dev_free_fid of a volume whose table has an unused unlinked among the `tbl_cnt` of the head and not
-- at 0: it returns the least number from 1 on of an unused unlinked, and leaves the volume as it is.
pub free_fid_lem :
    (v : Volume) (k : ℕ) (e : TableEntry)
    → 1 ≤ k
    → k < v.fs_head.tbl_cnt
    → get_elem? v.fs_table.entrs k ≡ some e
    → e.lnk_cnt ≡ 0
    → (fid : ℕ) × (free_fid v ≡ ok fid v) × FreeFid v fid
unfolding free_fid
free_fid_lem v k e pos lt there unused =
    let es : List TableEntry = v.fs_table.entrs in
    let k' : suc (k - 1) ≡ k = omega arith in
    let (j, eq, r) =
      free_fid_from-Least (drop 1 es) 1 (v.fs_head.tbl_cnt - 1) (k - 1) e (omega arith)
        (get_elem?-drop_one es (k - 1) ∙ ap (get_elem? es) k' ∙ there) unused in
    (
      1 + j,
      rw eq refl,
      record {
        unlinked = r.unlinked;
        positive = omega arith;
        there =
            ap (get_elem? es) {x = 1 + j} {y = suc j} (omega arith)
            ∙ sym (get_elem?-drop_one es j)
            ∙ r.there;
        unused = r.unused;
        before = λ i e' a b h. r.before (i - 1) e' (omega arith) (
            get_elem?-drop_one es (i - 1)
            ∙ ap (get_elem? es) {x = suc (i - 1)} {y = i} (omega arith)
            ∙ h);
      },
    )
