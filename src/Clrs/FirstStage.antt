-- ===== src/Clrs/FirstStage.antt =====
-- dev_tbl_load_fir on the first stage of an entry: the clusters of a file.
use fcfs.Base.{
  ℕ, zero, suc, ◌≤◌, ◌≡◌, ◌≢◌, refl, ap, sym, ◌∙◌, Bool, false, ◌⊎◌, inl, inr, some, List, [], ◌∷◌,
  arith, ◌==◌, if◌then◌else◌, length, get_elem?, take, length-take, Bool-cases,
}
use fcfs.Structs.{TableEntry}
use fcfs.Clrs.{first_stage, first_addrs}

-- The clusters of the file.
abbrev pub clusters : ℕ → TableEntry → List ℕ
clusters fid e = first_addrs fid (take first_stage e.clrs)

length-first_addrs : (fid : ℕ) (cs : List ℕ) → length (first_addrs fid cs) ≤ length cs
unfolding first_addrs
length-first_addrs fid [] = omega arith
length-first_addrs fid (c ∷ cs) = ground (arith, length-first_addrs fid cs)

pub length-clusters : (fid : ℕ) (e : TableEntry) → length (clusters fid e) ≤ first_stage
length-clusters fid e =
    omega (arith, length-first_addrs fid (take first_stage e.clrs), length-take first_stage e.clrs)

first_addrs_step :
    (fid c : ℕ) (cs : List ℕ)
    → fid ≢ 0
    → first_addrs fid (c ∷ cs) ≡ (if c == 0 then [] else c ∷ first_addrs fid cs)
unfolding first_addrs
first_addrs_step fid c cs file = ground (arith, file)

-- A number of the entry that is not 0.
abbrev pub AtPlace : List ℕ → ℕ → ℕ → Type 0
AtPlace cs i a = (get_elem? cs i ≡ some a) × (a ≢ 0)

AtPlace-later :
    (c i a : ℕ) (cs ids : List ℕ)
    → ((j : ℕ) → get_elem? ids j ≡ some a → AtPlace cs j a)
    → (c == 0) ≡ false
    → get_elem? (c ∷ ids) i ≡ some a
    → AtPlace (c ∷ cs) i a
AtPlace-later c zero a cs ids later id h = ground (arith, id, h)
AtPlace-later c (suc i) a cs ids later id h = later i h

pub first_addrs-AtPlace :
    (fid : ℕ) (cs : List ℕ) (i a : ℕ)
    → fid ≢ 0
    → get_elem? (first_addrs fid cs) i ≡ some a
    → AtPlace cs i a
unfolding first_addrs
first_addrs-AtPlace fid [] i a file h = absurd (ground (arith, h))
first_addrs-AtPlace fid (c ∷ cs) i a file h =
    let step = ap (λ l. get_elem? l i) (sym (first_addrs_step fid c cs file)) ∙ h in
    let front : Bool → List ℕ = λ b. if b then [] else c ∷ first_addrs fid cs in
    elim (Bool-cases (c == 0)) [
      | inl last ↦ absurd (ground (arith, ap (λ b. get_elem? (front b) i) (sym last) ∙ step))
      | inr id ↦
          AtPlace-later c i a cs (first_addrs fid cs) (λ j. first_addrs-AtPlace fid cs j a file) id
            (ap (λ b. get_elem? (front b) i) (sym id) ∙ step)
    ]

pub get_elem?-take :
    (n : ℕ) (cs : List ℕ) (i a : ℕ) → get_elem? (take n cs) i ≡ some a → get_elem? cs i ≡ some a
get_elem?-take zero cs i a h = absurd (ground (arith, h))
get_elem?-take (suc n) [] i a h = h
get_elem?-take (suc n) (c ∷ cs) zero a h = h
get_elem?-take (suc n) (c ∷ cs) (suc i) a h = get_elem?-take n cs i a h

-- The file's list of clusters ends at a 0 of the entry, or where the first stage does.
first_addrs-end :
    (fid : ℕ) (cs : List ℕ)
    → fid ≢ 0
    → (length (first_addrs fid cs) ≡ length cs)
      ⊎ (get_elem? cs (length (first_addrs fid cs)) ≡ some 0)
unfolding first_addrs
first_addrs-end fid [] file = inl refl
first_addrs-end fid (c ∷ cs) file =
    rw (first_addrs_step fid c cs file) (elim (Bool-cases (c == 0)) [
      | inl last ↦ rw last (inr (ground (arith, last)))
      | inr id ↦ rw id (elim (first_addrs-end fid cs file) [
        | inl whole ↦ inl (ap suc whole)
        | inr last ↦ inr last
      ])
    ])

pub clusters-end :
    (fid : ℕ) (e : TableEntry)
    → fid ≢ 0
    → (length (clusters fid e) ≡ length (take first_stage e.clrs))
      ⊎ (get_elem? e.clrs (length (clusters fid e)) ≡ some 0)
clusters-end fid e file = elim (first_addrs-end fid (take first_stage e.clrs) file) [
  | inl whole ↦ inl whole
  | inr last ↦ inr (get_elem?-take first_stage e.clrs (length (clusters fid e)) 0 last)
]
