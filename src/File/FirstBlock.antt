-- ===== src/File/FirstBlock.antt =====
-- The first free block of a cluster, which dev_file_alloc takes.
use fcfs.Base.{
  ℕ, zero, suc, ◌+◌, ◌<◌, ◌≡◌, ap, sym, ◌∙◌, true, false, inl, inr, List, [], ◌∷◌, arith, ◌==◌,
  if◌then◌else◌, length, Bool-cases,
}
use fcfs.Structs.{BlockListEntry}
use fcfs.Device.{blocks_from}
use fcfs.Device.Owned.{owns}
use fcfs.Bitmap.{has_free}

-- Entry `k` is the first without an owner.
pub record FirstBlock (es : List BlockListEntry) (k : ℕ) : Type 0 where
  pub inside : k < length es
  pub free : owns es k 0 ≡ true
  pub least : (j : ℕ) → j < k → owns es j 0 ≡ false

FirstBlock-later :
    (e : BlockListEntry) (es : List BlockListEntry) (k : ℕ)
    → (0 == e.fid) ≡ false
    → FirstBlock es k
    → FirstBlock (e ∷ es) (suc k)
FirstBlock-later e es k taken f = record {
  inside = omega (arith, f.inside);
  free = f.free;
  least = below;
}
  where
    below : (j : ℕ) → j < suc k → owns (e ∷ es) j 0 ≡ false
    below zero h = taken
    below (suc j) h = f.least j (omega (arith, h))

-- The list of free blocks starts with the first entry without an owner.
pub blocks_from-FirstBlock :
    (es : List BlockListEntry) (i : ℕ)
    → has_free es ≡ true
    → (k : ℕ) × (rest : List ℕ) × (blocks_from i es 0 ≡ (i + 1 + k) ∷ rest) × FirstBlock es k
unfolding has_free blocks_from
blocks_from-FirstBlock [] i h = absurd (ground (arith, h))
blocks_from-FirstBlock (e ∷ es) i h = elim (Bool-cases (0 == e.fid)) [
  | inl free ↦ (
    0,
    blocks_from (i + 1) es 0,
    rw free (ap (λ b. b ∷ blocks_from (i + 1) es 0) {x = i + 1} {y = i + 1 + 0} (omega arith)),
    record { inside = omega arith; free = free; least = λ j lt. absurd (omega (arith, lt)) },
  )
  | inr taken ↦
      let other : (e.fid == 0) ≡ false = ground (arith, taken) in
      let later : has_free es ≡ true = ap (λ b. if b then true else has_free es) (sym other) ∙ h in
      let (k, rest, eq, f) = blocks_from-FirstBlock es (i + 1) later in
      (
        suc k,
        rest,
        rw taken (eq ∙ ap (λ b. b ∷ rest) {x = i + 1 + 1 + k} {y = i + 1 + suc k} (omega arith)),
        FirstBlock-later e es k taken f,
      )
]
