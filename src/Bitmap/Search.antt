-- ===== src/Bitmap/Search.antt =====
-- dev_free_cluster_from: which cluster the search returns.
pub mod Loop
use fcfs.Base.{
  ℕ, zero, suc, ◌+◌, ◌-◌, ◌*◌, ◌/◌, ◌%◌, ◌^◌, ◌≤◌, ◌<◌, ◌≡◌, refl, ◌≢◌, ◌⊎◌, inl, inr, true, false,
  none, some, List, [], ◌∷◌, arith, ◌==◌, get_or, ltb, drop, length, Bool-cases, Option-cases, ap,
  ap₂, sym, ==→eq, length-drop, ◌∙◌,
}
use fcfs.Base.Bytes.{IsBytes}
use fcfs.Base.Words.{is_neg}
use fcfs.Bitmap.{mask_bit, first_clear, scan, free_cluster_from}
use fcfs.Bitmap.Bits.{mask_bit-full, mask_bit-lt}
use fcfs.Bitmap.Update.{used, get_or-lt}
use fcfs.Bitmap.Search.Loop.{First, Exact, Finds, scan-Finds}

length-drop_lt : (n m : ℕ) (xs : List ℕ) → n + m < length xs → m < length (drop n xs)
length-drop_lt n m xs h = omega (arith, length-drop n xs)

get_or-drop : (n m : ℕ) (xs : List ℕ) → get_or (drop n xs) m 0 ≡ get_or xs (n + m) 0
get_or-drop zero m xs = ap (λ k. get_or xs k 0) {x = m} (omega arith)
get_or-drop (suc n) m [] = refl
get_or-drop (suc n) m (x ∷ xs) =
    get_or-drop n m xs ∙ ap (λ k. get_or (x ∷ xs) k 0) {x = suc (n + m)} (omega arith)

-- A bit of the dropped list is a bit of the bitmap.
drop_bit :
    (bitmap : List ℕ) (n m j c : ℕ)
    → j < 8
    → c ≡ n * 8 + (m * 8 + j)
    → mask_bit (get_or (drop n bitmap) m 0) j ≡ mask_bit (get_or bitmap (c / 8) 0) (c % 8)
drop_bit bitmap n m j c b e =
    let byte : n + m ≡ c / 8 = omega arith in
    let bit : j ≡ c % 8 = omega arith in
    ap₂ mask_bit (get_or-drop n m bitmap ∙ ap (λ k. get_or bitmap k 0) byte) bit

module _ (bitmap : List ℕ) (bs : IsBytes bitmap) where
  digit : (c : ℕ) → mask_bit (get_or bitmap (c / 8) 0) (c % 8) < 2
  digit c = mask_bit-lt _ _ (get_or-lt bitmap (c / 8) bs) (omega arith)

  bit_of_used : (c : ℕ) → used bitmap c ≡ false → mask_bit (get_or bitmap (c / 8) 0) (c % 8) ≡ 0
  unfolding used
  bit_of_used c h = ground (arith, digit c)

  used_of_bit : (c : ℕ) → mask_bit (get_or bitmap (c / 8) 0) (c % 8) ≢ 0 → used bitmap c ≡ true
  unfolding used
  used_of_bit c h = ground (arith, digit c)

  free_of_bit : (c : ℕ) → mask_bit (get_or bitmap (c / 8) 0) (c % 8) ≡ 0 → used bitmap c ≡ false
  unfolding used
  free_of_bit c h = ground arith

-- What a search from `cid` should return: the first cluster behind `cid` whose flag is clear.
pub record FirstFree (bitmap : List ℕ) (cid c : ℕ) : Type 0 where
  pub behind : cid < c
  pub inside : c / 8 < length bitmap
  pub free : used bitmap c ≡ false
  pub least : (c' : ℕ) → cid < c' → c' < c → used bitmap c' ≡ true

First-FirstFree :
    (bitmap : List ℕ) (cid m j : ℕ)
    → IsBytes bitmap
    → First (drop (cid / 8) bitmap) (cid % 8 + 1) m j
    → FirstFree bitmap cid (cid / 8 * 8 + (m * 8 + j))
First-FirstFree bitmap cid m j bs f = record {
  behind = omega (arith, f.start);
  inside = omega (arith, f.inside, f.bit, length-drop (cid / 8) bitmap);
  free = free_of_bit bitmap bs _ (sym (drop_bit bitmap (cid / 8) m j _ f.bit refl) ∙ f.clear);
  least = λ c' l u. used_of_bit bitmap bs c' λ e.
      f.least (c' / 8 - cid / 8) (c' % 8) (omega arith) (omega arith) (omega arith)
        (drop_bit bitmap (cid / 8) (c' / 8 - cid / 8) (c' % 8) c' (omega arith) (omega arith) ∙ e);
}

pub get_or-drop_zero : (n : ℕ) (xs : List ℕ) → get_or (drop n xs) 0 0 ≡ get_or xs n 0
get_or-drop_zero n xs = get_or-drop n 0 xs ∙ ap (λ k. get_or xs k 0) {x = n + 0} (omega arith)

pub nonneg_search :
    (bitmap : List ℕ) (btm_len cid : ℕ)
    → cid < 2 ^ 31
    → free_cluster_from bitmap btm_len cid
      ≡ scan (drop (cid / 8) bitmap) (cid / 8) (btm_len - cid / 8) (cid % 8 + 1)
unfolding free_cluster_from
nonneg_search bitmap btm_len cid small = let nonneg : is_neg cid ≡ false = ground arith in rw nonneg

-- A search from a cluster whose byte of the bitmap is not full, with a free cluster behind it that
-- lies inside the bitmap and inside the loop's bound, returns the first free cluster behind it.
pub free_cluster_from_lem :
    (bitmap : List ℕ) (btm_len cid d : ℕ)
    → IsBytes bitmap
    → cid < 2 ^ 31
    → get_or bitmap (cid / 8) 0 ≢ 255
    → cid < d
    → d / 8 < length bitmap
    → d / 8 < btm_len
    → used bitmap d ≡ false
    → (c : ℕ) × (free_cluster_from bitmap btm_len cid ≡ some c) × FirstFree bitmap cid c
free_cluster_from_lem bitmap btm_len cid d bs small room behind inside within free =
    let m : ℕ = d / 8 - cid / 8 in
    let clear : mask_bit (get_or (drop (cid / 8) bitmap) m 0) (d % 8) ≡ 0 =
      drop_bit bitmap (cid / 8) m (d % 8) d (omega arith) (omega arith)
      ∙ bit_of_used bitmap bs d free in
    let exact : get_or (drop (cid / 8) bitmap) 0 0 ≢ 255 =
      λ e. room (sym (get_or-drop_zero (cid / 8) bitmap) ∙ e) in
    let (m', j, eq, first) =
      scan-Finds (drop (cid / 8) bitmap) (cid / 8) (btm_len - cid / 8) (cid % 8 + 1) m (d % 8)
        (omega arith) (inr exact) (omega arith) (length-drop_lt (cid / 8) m bitmap (omega arith))
        (omega arith) (omega arith) clear in
    (
      cid / 8 * 8 + (m' * 8 + j),
      nonneg_search bitmap btm_len cid small ∙ eq,
      First-FirstFree bitmap cid m' j bs first,
    )

-- The search finds no cluster behind one with a clear flag.
pub FirstFree-le :
    (bitmap : List ℕ) (cid c d : ℕ)
    → FirstFree bitmap cid c
    → cid < d
    → used bitmap d ≡ false
    → c ≤ d
FirstFree-le bitmap cid c d first behind clear = elim (Bool-cases (ltb d c)) [
  | inl before ↦
      let set_flag = first.least d behind (ground (arith, before)) in
      absurd (ground (arith, sym clear ∙ set_flag))
  | inr not_before ↦ ground (arith, not_before)
]

-- The byte of a clear flag is not full.
pub byte_of_free :
    (bitmap : List ℕ) (c : ℕ)
    → IsBytes bitmap
    → used bitmap c ≡ false
    → get_or bitmap (c / 8) 0 ≢ 255
byte_of_free bitmap c bs clear full =
    let zero_bit = bit_of_used bitmap bs c clear in
    let one_bit = ap (λ b. mask_bit b (c % 8)) full ∙ mask_bit-full (c % 8) (omega arith) in
    absurd (omega (arith, sym zero_bit ∙ one_bit))
