-- ===== src/Bitmap/Faults.antt =====
-- Where dev_free_cluster_from loses clusters and where it leaves the bitmap.
use fcfs.Base.{
  ℕ, true, zero, suc, ◌+◌, ◌-◌, ◌*◌, ◌/◌, ◌%◌, ◌^◌, ◌≤◌, ◌<◌, ◌≡◌, refl, ◌≢◌, inl, inr, none, some,
  List, [], ◌∷◌, arith, ◌==◌, All, length, drop, get_or, Bool-cases, Option-cases, ◌∙◌, sym, ltb,
  length-drop,
}
use fcfs.Base.Words.{minus_one}
use fcfs.Bitmap.{first_clear, scan, free_cluster_from}
use fcfs.Bitmap.Search.Loop.{first_clear-FirstClear}
use fcfs.Bitmap.Search.{nonneg_search, get_or-drop_zero}

-- What the loop returns lies at or behind bit `sc` of the byte where it starts.
scan-start :
    (bs : List ℕ) (i left sc c : ℕ)
    → scan bs i left sc ≡ some c
    → c ≢ minus_one
    → (i * 8 ≤ c) × (c < (i + 1) * 8 → i * 8 + sc ≤ c)
unfolding scan
scan-start bs i zero sc c h e = absurd (ground arith)
scan-start [] i (suc left) sc c h e = absurd (cc)
scan-start (cs ∷ bs) i (suc left) sc c h e = elim (Bool-cases (cs == 255)) [
  | inl full ↦ ground (arith, scan-start bs (i + 1) left sc c)
  | inr room ↦ elim (Option-cases (first_clear cs sc (8 - sc))) [
    | inl nothing ↦ ground (arith, scan-start bs (i + 1) left 0 c)
    | inr (k, found) ↦ ground (arith, first_clear-FirstClear cs sc (8 - sc) k found)
  ]
]

-- A search returns no cluster at or before the one where it starts.
pub free_cluster_from-behind :
    (bitmap : List ℕ) (btm_len cid c : ℕ)
    → cid < 2 ^ 31
    → free_cluster_from bitmap btm_len cid ≡ some c
    → c ≢ minus_one
    → cid < c
free_cluster_from-behind bitmap btm_len cid c small found ne =
    let (byte, bit) =
      scan-start (drop (cid / 8) bitmap) (cid / 8) (btm_len - cid / 8) (cid % 8 + 1) c
        (sym (nonneg_search bitmap btm_len cid small) ∙ found) ne in
    elim (Bool-cases (ltb c ((cid / 8 + 1) * 8))) [
      | inl within ↦ omega (arith, bit (ground (arith, within)))
      | inr later ↦ let far : (cid / 8 + 1) * 8 ≤ c = ground (arith, later) in omega (arith, far)
    ]

scan-behind :
    (bs : List ℕ) (i left sc c : ℕ)
    → sc ≤ 8
    → get_or bs 0 0 ≡ 255
    → 0 < left
    → scan bs i left sc ≡ some c
    → c ≢ minus_one
    → (i + 1) * 8 + sc ≤ c
unfolding scan
scan-behind bs i zero sc c small full l h e = absurd (omega arith)
scan-behind [] i (suc left) sc c small full l h e = absurd (cc)
scan-behind (cs ∷ bs) i (suc left) sc c small full l h e =
    let test : (cs == 255) ≡ true = ground arith in
    let h' : scan bs (i + 1) left sc ≡ some c = ground arith in
    ground (arith, scan-start bs (i + 1) left sc c h' e)

scan-overrun :
    (bs : List ℕ) (i left sc : ℕ)
    → All (λ b. b ≡ 255) bs
    → length bs < left
    → scan bs i left sc ≡ none
unfolding scan
scan-overrun bs i zero sc full short = absurd (omega arith)
scan-overrun [] i (suc left) sc full short = refl
scan-overrun (cs ∷ bs) i (suc left) sc full short =
    let test : (cs == 255) ≡ true = ground arith in
    rw test (scan-overrun bs (i + 1) left sc full.1 (omega arith))

All-drop : (P : ℕ → Type 0) (n : ℕ) (xs : List ℕ) → All P xs → All P (drop n xs)
All-drop P zero xs h = h
All-drop P (suc n) [] h = h
All-drop P (suc n) (x ∷ xs) h = All-drop P n xs h.1

-- A search that starts in a full byte skips the first clusters of the next byte: it returns none of
-- the clusters from the start of that byte up to the position in it that `cid` has in its own,
-- whether they are free or not.
pub free_cluster_from-skips :
    (bitmap : List ℕ) (btm_len cid c : ℕ)
    → cid < 2 ^ 31
    → cid / 8 < length bitmap
    → cid / 8 < btm_len
    → get_or bitmap (cid / 8) 0 ≡ 255
    → free_cluster_from bitmap btm_len cid ≡ some c
    → c ≢ minus_one
    → (cid / 8 + 1) * 8 + cid % 8 < c
free_cluster_from-skips bitmap btm_len cid c small inside within full found ne = omega (
  arith,
  scan-behind (drop (cid / 8) bitmap) (cid / 8) (btm_len - cid / 8) (cid % 8 + 1) c (omega arith)
      (get_or-drop_zero (cid / 8) bitmap ∙ full) (omega arith)
      (sym (nonneg_search bitmap btm_len cid small) ∙ found) ne,
)

-- When every byte of the bitmap is full and the loop's bound, the number of clusters, is above the
-- number of bytes, the search reads behind the end of the bitmap.
pub free_cluster_from-overrun :
    (bitmap : List ℕ) (btm_len cid : ℕ)
    → cid < 2 ^ 31
    → All (λ b. b ≡ 255) bitmap
    → length bitmap < btm_len
    → cid / 8 ≤ length bitmap
    → free_cluster_from bitmap btm_len cid ≡ none
free_cluster_from-overrun bitmap btm_len cid small full short inside =
    nonneg_search bitmap btm_len cid small
    ∙ scan-overrun (drop (cid / 8) bitmap) (cid / 8) (btm_len - cid / 8) (cid % 8 + 1)
        (All-drop (λ b. b ≡ 255) (cid / 8) bitmap full)
        (omega (arith, length-drop (cid / 8) bitmap))
