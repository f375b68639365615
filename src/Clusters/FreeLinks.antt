-- ===== src/Clusters/FreeLinks.antt =====
-- The links that a round of dev_free_blocks makes of the free blocks of a cluster.
use fcfs.Base.{
  ℕ, zero, suc, ◌+◌, ◌-◌, ◌≤◌, ◌<◌, ◌≡◌, refl, ap, ◌∙◌, sym, inl, inr, true, false, List, [], ◌∷◌,
  ◌++◌, All, arith, ◌==◌, if◌then◌else◌, length, take, Bool-cases, length-take,
}
use fcfs.Base.Words.{u8}
use fcfs.Structs.{BlockListEntry, BlkInfo}
use fcfs.Volume.{Volume}
use fcfs.Device.{blocks_from}
use fcfs.Device.Owned.{owns}
use fcfs.Bitmap.{has_free}
use fcfs.Clusters.{links}
use fcfs.Clusters.Coherent.{owners}

-- A link to a block of data that no file has.
pub record IsFree (v : Volume) (inf : BlkInfo) : Type 0 where
  pub cluster : inf.cid < v.fs_head.clu_cnt
  pub first : 1 ≤ inf.bid
  pub last : inf.bid ≤ 7
  pub owner : owns (owners v inf.cid) (inf.bid - 1) 0 ≡ true

abbrev pub InTable : List BlockListEntry → ℕ → ℕ → Type 0
InTable es i b = (i + 1 ≤ b) × (b ≤ i + length es) × (owns es (b - (i + 1)) 0 ≡ true)

pub All-map : (P Q : ℕ → Type 0) (bs : List ℕ) → ((b : ℕ) → P b → Q b) → All P bs → All Q bs
All-map P Q [] f h = tt
All-map P Q (b ∷ bs) f h = (f b h.0, All-map P Q bs f h.1)

pub All-take : (P : ℕ → Type 0) (n : ℕ) (bs : List ℕ) → All P bs → All P (take n bs)
All-take P zero bs h = tt
All-take P (suc n) [] h = tt
All-take P (suc n) (b ∷ bs) h = (h.0, All-take P n bs h.1)

owns_later :
    (e : BlockListEntry) (es : List BlockListEntry) (i b : ℕ)
    → InTable es (i + 1) b
    → InTable (e ∷ es) i b
owns_later e es i b (lo, hi, own) =
    let next : b - (i + 1) ≡ suc (b - (i + 1 + 1)) = omega arith in
    (omega arith, omega arith, ap (λ k. owns (e ∷ es) k 0) next ∙ own)

pub blocks_from-InTable :
    (es : List BlockListEntry) (i : ℕ) → All (InTable es i) (blocks_from i es 0)
unfolding blocks_from
blocks_from-InTable [] i = tt
blocks_from-InTable (e ∷ es) i =
    let later : All (InTable (e ∷ es) i) (blocks_from (i + 1) es 0) =
      All-map (InTable es (i + 1)) (InTable (e ∷ es) i) (blocks_from (i + 1) es 0)
        (owns_later e es i) (blocks_from-InTable es (i + 1)) in
    let here : i + 1 - (i + 1) ≡ 0 = omega arith in
    elim (Bool-cases (0 == e.fid)) [
      | inl free ↦
          rw free ((omega arith, omega arith, ap (λ k. owns (e ∷ es) k 0) here ∙ free), later)
      | inr taken ↦ rw taken later
    ]

pub some_block :
    (es : List BlockListEntry) (i : ℕ) → has_free es ≡ true → 1 ≤ length (blocks_from i es 0)
unfolding has_free blocks_from
some_block [] i h = ground (arith, h)
some_block (e ∷ es) i h = elim (Bool-cases (e.fid == 0)) [
  | inl free ↦ let same : (0 == e.fid) ≡ true = ground arith in rw same (omega arith)
  | inr taken ↦
      let other : (0 == e.fid) ≡ false = ground arith in
      rw other (some_block es (i + 1) (ap (λ b. if b then true else has_free es) (sym taken) ∙ h))
]

pub links-IsFree :
    (v : Volume) (c : ℕ) (bs : List ℕ)
    → c < v.fs_head.clu_cnt
    → length (owners v c) ≡ 7
    → All (InTable (owners v c) 0) bs
    → All (IsFree v) (links c bs)
links-IsFree v c [] lt seven h = tt
links-IsFree v c (b ∷ bs) lt seven h =
    let byte : u8 b ≡ b = omega (arith, h.0.1, seven) in
    (
      record {
        cluster = lt;
        first = omega (arith, h.0.0);
        last = omega (arith, h.0.1, seven);
        owner = ap (λ k. owns (owners v c) (k - 1) 0) byte ∙ h.0.2;
      },
      links-IsFree v c bs lt seven h.1,
    )

pub length-links : (c : ℕ) (bs : List ℕ) → length (links c bs) ≡ length bs
length-links c [] = refl
length-links c (b ∷ bs) = ap suc (length-links c bs)

pub take_some :
    (n : ℕ) (bs : List ℕ)
    → 1 ≤ length bs
    → (1 ≤ length (take (suc n) bs)) × (length (take (suc n) bs) ≤ suc n)
take_some n [] h = absurd (omega arith)
take_some n (b ∷ bs) h = (omega arith, omega (arith, length-take n bs))

pub All-append :
    (P : BlkInfo → Type 0) (xs ys : List BlkInfo) → All P xs → All P ys → All P (xs ++ ys)
All-append P [] ys a b = b
All-append P (x ∷ xs) ys a b = (a.0, All-append P xs ys a.1 b)
