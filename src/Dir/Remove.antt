-- ===== src/Dir/Remove.antt =====
-- What dev_rm_from_dir makes of the entries of a directory.
use mathlib.Core.List.{Perm, perm_append_singleton}
use mathlib.Core.List.Perm
use fcfs.Base.{
  ℕ, ◌+◌, ◌-◌, ◌≡◌, ◌≢◌, refl, ap, ◌∙◌, sym, subst, ◌⊎◌, inl, inr, none, some, List, [], ◌∷◌, ◌++◌,
  arith, All, ◌==◌, length, take, get_elem?, length-append, take-append, Bool-cases, ==→eq,
}
use fcfs.Dir.{DirEntry, replace_fid, without_fid}
use fcfs.Dir.Codec.{IsDirEntry}

-- `r` are the entries without one of the number, in any order.
pub record Removed (dirs : List DirEntry) (id : ℕ) (r : List DirEntry) : Type 0 where
  pub gone : DirEntry
  pub number : gone.fid ≡ id
  pub rest : Perm dirs (gone ∷ r)
  pub count : length dirs ≡ length r + 1
  pub valid : All IsDirEntry dirs → All IsDirEntry r

-- The first entry with the number is replaced by the last one, if there is one.
abbrev Replaced : List DirEntry → DirEntry → ℕ → Type 0
Replaced init last id =
    ((replace_fid (init ++ last ∷ []) last id ≡ none) × All (λ e. e.fid ≢ id) (init ++ last ∷ []))
    ⊎ ((dirs' : List DirEntry) × (replace_fid (init ++ last ∷ []) last id ≡ some dirs')
        × Removed (init ++ last ∷ []) id (take (length init) dirs'))

last_valid :
    (init : List DirEntry) (last : DirEntry)
    → All IsDirEntry (init ++ last ∷ [])
    → All IsDirEntry (last ∷ init)
last_valid [] last h = h
last_valid (x ∷ xs) last h = let (l, r) = last_valid xs last h.1 in (l, (h.0, r))

replace_fid_lem : (init : List DirEntry) (last : DirEntry) (id : ℕ) → Replaced init last id
unfolding replace_fid
replace_fid_lem [] last id = elim (Bool-cases (last.fid == id)) [
  | inl same ↦ inr (
    last ∷ [],
    rw same refl,
    record {
      gone = last;
      number = ==→eq _ _ same;
      rest = Perm.refl (last ∷ []);
      count = refl;
      valid = λ h. tt;
    },
  )
  | inr other ↦ inl (rw other refl, (ground arith, tt))
]
replace_fid_lem (x ∷ xs) last id = elim (Bool-cases (x.fid == id)) [
  | inl same ↦ inr (
    last ∷ (xs ++ last ∷ []),
    rw same refl,
    record {
      gone = x;
      number = ==→eq _ _ same;
      rest =
          subst (λ t. Perm (x ∷ (xs ++ last ∷ [])) (x ∷ last ∷ t))
            (sym (take-append xs (last ∷ []))) (Perm.cons x (perm_append_singleton last xs));
      count = omega (arith, length-append xs (last ∷ []), ap length (take-append xs (last ∷ [])));
      valid = λ h.
          subst (λ t. All IsDirEntry (last ∷ t)) (sym (take-append xs (last ∷ [])))
            (last_valid xs last h.1);
    },
  )
  | inr other ↦ elim (replace_fid_lem xs last id) [
    | inl (eq, all) ↦ inl (rw (other, eq) refl, (ground arith, all))
    | inr (dirs', eq, r) ↦ inr (
      x ∷ dirs',
      rw (other, eq) refl,
      record {
        gone = r.gone;
        number = r.number;
        rest = Perm.trans (Perm.cons x r.rest) (Perm.swap r.gone x (take (length xs) dirs'));
        count = omega (arith, r.count);
        valid = λ h. (h.0, r.valid h.1);
      },
    )
  ]
]

-- A list that is not empty is a front and a last entry.
record Snoc (dirs : List DirEntry) : Type 0 where
  init : List DirEntry
  last : DirEntry
  split : dirs ≡ init ++ last ∷ []

last_of : (x : DirEntry) (xs : List DirEntry) → Snoc (x ∷ xs)
last_of x [] = record { init = []; last = x; split = refl }
last_of x (y ∷ ys) =
    let r : Snoc (y ∷ ys) = last_of y ys in
    record { init = x ∷ r.init; last = r.last; split = ap (λ t. x ∷ t) r.split }

get_elem?-last :
    (init : List DirEntry) (last : DirEntry)
    → get_elem? (init ++ last ∷ []) (length init) ≡ some last
get_elem?-last [] last = refl
get_elem?-last (x ∷ xs) last = get_elem?-last xs last

without_none :
    (dirs : List DirEntry) (last : DirEntry) (id : ℕ)
    → get_elem? dirs (length dirs - 1) ≡ some last
    → replace_fid dirs last id ≡ none
    → without_fid dirs id ≡ none
unfolding without_fid
without_none dirs last id found eq = rw (found, without_fid, eq) refl

without_some :
    (dirs dirs' : List DirEntry) (last : DirEntry) (id n : ℕ)
    → get_elem? dirs (length dirs - 1) ≡ some last
    → replace_fid dirs last id ≡ some dirs'
    → length dirs - 1 ≡ n
    → without_fid dirs id ≡ some (take n dirs')
unfolding without_fid
without_some dirs dirs' last id n found eq count = rw (found, without_fid, eq, count) refl

-- The removal of a number from the entries of a directory: when no entry has it there is no result,
-- and otherwise the result is the entries without one that has it, in any order.
abbrev pub FidRemoved : List DirEntry → ℕ → Type 0
FidRemoved dirs id =
    ((without_fid dirs id ≡ none) × All (λ e. e.fid ≢ id) dirs)
    ⊎ ((r : List DirEntry) × (without_fid dirs id ≡ some r) × Removed dirs id r)

without_fid-append :
    (init : List DirEntry) (last : DirEntry) (id : ℕ) → FidRemoved (init ++ last ∷ []) id
without_fid-append init last id =
    let dirs : List DirEntry = init ++ last ∷ [] in
    let n : length dirs - 1 ≡ length init = omega (arith, length-append init (last ∷ [])) in
    let found : get_elem? dirs (length dirs - 1) ≡ some last =
      ap (get_elem? dirs) n ∙ get_elem?-last init last in
    elim (replace_fid_lem init last id) [
      | inl (eq, all) ↦ inl (without_none dirs last id found eq, all)
      | inr (dirs', eq, r) ↦
          inr
            (take (length init) dirs', without_some dirs dirs' last id (length init) found eq n, r)
    ]

-- The entries that dev_rm_from_dir writes back: there are none to write when no entry has the number,
-- and otherwise they are the entries without one that has it, in any order.
pub without_fid_lem : (dirs : List DirEntry) (id : ℕ) → FidRemoved dirs id
unfolding without_fid
without_fid_lem [] id = inl (refl, tt)
without_fid_lem (x ∷ xs) id =
    let r : Snoc (x ∷ xs) = last_of x xs in
    subst (λ t. FidRemoved t id) (sym r.split) (without_fid-append r.init r.last id)
