-- ===== src/Files/Disown.antt =====
-- The loop of dev_rm_file over the blocks of one cluster.
use fcfs.Base.{
  ℕ, zero, suc, ◌+◌, ◌-◌, ◌≡◌, ◌≢◌, refl, ap, ap₂, sym, ◌∙◌, true, false, inl, inr, some, none,
  List, [], ◌∷◌, ◌++◌, All, arith, ◌==◌, if◌then◌else◌, length, length-append, get_elem?, set,
  Bool-cases, append_assoc,
}
use fcfs.Structs.{BlockListEntry}
use fcfs.Device.{blocks_from, get_blocks}
use fcfs.Device.Owned.{owns}
use fcfs.Ctable.Roundtrip.{FitsEntry, IsBlockList}
use fcfs.File.{own}
use fcfs.File.Owner.{own-set}
use fcfs.Files.{disown}

abbrev pub no_owner : BlockListEntry
no_owner = record { fid = 0; num = 0 }

-- The entries of a cluster without those of a file.
abbrev pub released : ℕ → List BlockListEntry → List BlockListEntry
released fid [] = []
released fid (e ∷ es) = (if fid == e.fid then no_owner else e) ∷ released fid es

set-front :
    (front es : List BlockListEntry) (e x : BlockListEntry)
    → set (front ++ e ∷ es) (length front) x ≡ (front ++ x ∷ []) ++ es
set-front [] es e x = refl
set-front (y ∷ front) es e x = ap (λ l. y ∷ l) (set-front front es e x)

disown-next :
    (front es l : List BlockListEntry) (fid : ℕ) (x : BlockListEntry)
    → l ≡ (front ++ x ∷ []) ++ es
    → disown ((front ++ x ∷ []) ++ es) (blocks_from (length (front ++ x ∷ [])) es fid)
      ≡ some ((front ++ x ∷ []) ++ released fid es)
    → disown l (blocks_from (length front + 1) es fid) ≡ some (front ++ x ∷ released fid es)
disown-next front es l fid x same later =
    let sized : length front + 1 ≡ length (front ++ x ∷ []) = sym (length-append front (x ∷ [])) in
    (λ i. disown (same i) (blocks_from (sized i) es fid))
    ∙ later
    ∙ ap some (append_assoc front (x ∷ []) (released fid es))

disown_step :
    (es es' : List BlockListEntry) (bid : ℕ) (bids : List ℕ)
    → own es bid 0 0 ≡ some es'
    → disown es (bid ∷ bids) ≡ disown es' bids
unfolding disown
disown_step es es' bid bids owned = rw (disown, owned) refl

disown-front :
    (front es : List BlockListEntry) (fid : ℕ)
    → disown (front ++ es) (blocks_from (length front) es fid) ≡ some (front ++ released fid es)
unfolding disown blocks_from
disown-front front [] fid = refl
disown-front front (e ∷ es) fid =
    let sized : length (front ++ e ∷ es) ≡ length front + suc (length es) =
      length-append front (e ∷ es) in
    elim (Bool-cases (fid == e.fid)) [
      | inl mine ↦ rw mine (
          disown_step (front ++ e ∷ es) _ (length front + 1) (blocks_from (length front + 1) es fid)
            (own-set (front ++ e ∷ es) (length front + 1) 0 0 (omega arith) (omega (arith, sized))
              ∙ ap (λ k. some (set (front ++ e ∷ es) k no_owner)) {x = length front + 1 - 1}
                  (omega arith))
          ∙ disown-next front es _ fid no_owner (set-front front es e no_owner)
              (disown-front (front ++ no_owner ∷ []) es fid))
      | inr other ↦ rw other (
          disown-next front es _ fid e (sym (append_assoc front (e ∷ []) es))
            (disown-front (front ++ e ∷ []) es fid))
    ]

-- The loop over the blocks of a file ends, and frees every entry of the file and no other.
pub disown-get_blocks :
    (es : List BlockListEntry) (fid : ℕ) → disown es (get_blocks es fid) ≡ some (released fid es)
unfolding get_blocks
disown-get_blocks es fid = disown-front [] es fid

All-released :
    (es : List BlockListEntry) (fid : ℕ) → All FitsEntry es → All FitsEntry (released fid es)
All-released [] fid a = tt
All-released (e ∷ es) fid (here, later) = elim (Bool-cases (fid == e.fid)) [
  | inl mine ↦ rw mine (record { fid = omega arith; num = omega arith }, All-released es fid later)
  | inr other ↦ rw other (here, All-released es fid later)
]

length-released : (es : List BlockListEntry) (fid : ℕ) → length (released fid es) ≡ length es
length-released [] fid = refl
length-released (e ∷ es) fid = ap suc (length-released es fid)

pub released-IsBlockList :
    (es : List BlockListEntry) (fid : ℕ) → IsBlockList es → IsBlockList (released fid es)
released-IsBlockList es fid is = record {
  count = length-released es fid ∙ is.count;
  fits = All-released es fid is.fits;
}

cleared_twice :
    (e : BlockListEntry) (fid : ℕ) → released fid (released fid (e ∷ [])) ≡ released fid (e ∷ [])
cleared_twice e fid = elim (Bool-cases (fid == e.fid)) [
  | inl mine ↦
      rw mine (elim (Bool-cases (fid == 0)) [
        | inl zero_file ↦ rw zero_file refl
        | inr file ↦ rw file refl
      ])
  | inr other ↦ rw (other, other) refl
]

pub released_twice :
    (es : List BlockListEntry) (fid : ℕ) → released fid (released fid es) ≡ released fid es
released_twice [] fid = refl
released_twice (e ∷ es) fid =
    ap₂ (λ x l. elim x [ [] ↦ l | y ∷ ys ↦ y ∷ l ]) (cleared_twice e fid) (released_twice es fid)

blocks_from-released :
    (es : List BlockListEntry) (i fid : ℕ)
    → (length (blocks_from i es fid) == 0) ≡ true
    → released fid es ≡ es
unfolding blocks_from
blocks_from-released [] i fid h = refl
blocks_from-released (e ∷ es) i fid h = elim (Bool-cases (fid == e.fid)) [
  | inl mine ↦ absurd (ground (arith, mine, h))
  | inr other ↦
      rw other (ap (λ l. e ∷ l) (blocks_from-released es (i + 1) fid (ground (arith, other, h))))
]

-- A cluster without blocks of the file stays as it is.
pub released_none :
    (es : List BlockListEntry) (fid : ℕ)
    → (length (get_blocks es fid) == 0) ≡ true
    → released fid es ≡ es
unfolding get_blocks
released_none es fid h = blocks_from-released es 0 fid h

pub owns-released :
    (es : List BlockListEntry) (fid k : ℕ) → fid ≢ 0 → owns (released fid es) k fid ≡ false
owns-released [] fid k file = refl
owns-released (e ∷ es) fid zero file = ground (arith, file)
owns-released (e ∷ es) fid (suc k) file = owns-released es fid k file

pub get_elem?-released :
    (es : List BlockListEntry) (fid k : ℕ) (e : BlockListEntry)
    → get_elem? es k ≡ some e
    → e.fid ≢ fid
    → get_elem? (released fid es) k ≡ some e
get_elem?-released [] fid k e h other = h
get_elem?-released (x ∷ es) fid zero e h other =
    let same : x ≡ e = ap (λ o. elim o [ none ↦ x | some y ↦ y ]) h in
    let kept : (fid == x.fid) ≡ false = ground (arith, ap (λ y. y.fid) same, other) in rw kept h
get_elem?-released (x ∷ es) fid (suc k) e h other = get_elem?-released es fid k e h other

pub get_elem?-released_own :
    (es : List BlockListEntry) (fid k : ℕ) (e : BlockListEntry)
    → get_elem? es k ≡ some e
    → e.fid ≡ fid
    → get_elem? (released fid es) k ≡ some no_owner
get_elem?-released_own [] fid k e h mine = absurd (ground (arith, h))
get_elem?-released_own (x ∷ es) fid zero e h mine =
    let same : x ≡ e = ap (λ o. elim o [ none ↦ x | some y ↦ y ]) h in
    let own : (fid == x.fid) ≡ true = ground (arith, ap (λ y. y.fid) same, mine) in rw own refl
get_elem?-released_own (x ∷ es) fid (suc k) e h mine = get_elem?-released_own es fid k e h mine
