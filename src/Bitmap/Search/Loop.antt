-- ===== src/Bitmap/Search/Loop.antt =====
-- The two loops of dev_free_cluster_from, over the bytes from the first one searched.
use fcfs.Base.{
  ℕ, zero, suc, ◌+◌, ◌-◌, ◌*◌, ◌≤◌, ◌<◌, ◌≡◌, refl, ◌≢◌, ◌⊎◌, inl, inr, true, false, none, some,
  List, [], ◌∷◌, arith, ◌==◌, get_or, length, Bool-cases, Option-cases, ap, sym, ==→eq, ◌∙◌,
}
use fcfs.Bitmap.{mask_bit, first_clear, scan}
use fcfs.Bitmap.Bits.{mask_bit-full}

-- The inner loop returns the first clear bit of its range.
pub record FirstClear (cs j n k : ℕ) : Type 0 where
  pub lower : j ≤ k
  pub upper : k < j + n
  clear : mask_bit cs k ≡ 0
  least : (k' : ℕ) → j ≤ k' → k' < k → mask_bit cs k' ≢ 0

pub first_clear-FirstClear : (cs j n k : ℕ) → first_clear cs j n ≡ some k → FirstClear cs j n k
unfolding first_clear
first_clear-FirstClear cs j zero k h = absurd (cc)
first_clear-FirstClear cs j (suc n) k h = elim (Bool-cases (mask_bit cs j == 0)) [
  | inl hit ↦
      let e : j ≡ k = ground arith in
      record {
        lower = omega arith;
        upper = omega arith;
        clear = rw e at (==→eq _ _ hit);
        least = λ k' a b. absurd (omega arith);
      }
  | inr miss ↦
      let h' : first_clear cs (j + 1) n ≡ some k = ground arith in
      let later = first_clear-FirstClear cs (j + 1) n k h' in
      record {
        lower = omega arith;
        upper = omega arith;
        clear = later.clear;
        least = λ k' a b. ground (arith, later.least k');
      }
]

first_clear-none :
    (cs j n : ℕ) → first_clear cs j n ≡ none → (k : ℕ) → j ≤ k → k < j + n → mask_bit cs k ≢ 0
unfolding first_clear
first_clear-none cs j zero h k l u = absurd (omega arith)
first_clear-none cs j (suc n) h k l u = elim (Bool-cases (mask_bit cs j == 0)) [
  | inl hit ↦ absurd (ground arith)
  | inr miss ↦
      let h' : first_clear cs (j + 1) n ≡ none = ground arith in
      ground (arith, first_clear-none cs (j + 1) n h' k)
]

-- Bit `j` of byte `m` is the first clear bit at or behind bit `sc` of the first byte.
pub record First (bs : List ℕ) (sc m j : ℕ) : Type 0 where
  pub inside : m < length bs
  pub bit : j < 8
  pub clear : mask_bit (get_or bs m 0) j ≡ 0
  pub start : sc ≤ m * 8 + j
  pub least :
      (m' j' : ℕ)
      → j' < 8
      → sc ≤ m' * 8 + j'
      → m' * 8 + j' < m * 8 + j
      → mask_bit (get_or bs m' 0) j' ≢ 0

-- The search of a byte that is not full, or that is searched whole, loses no bit.
abbrev pub Exact : List ℕ → ℕ → Type 0
Exact bs sc = (sc ≡ 0) ⊎ (get_or bs 0 0 ≢ 255)

-- In the first byte, when the inner loop finds a bit there.
First-here :
    (cs sc j : ℕ) (bs : List ℕ) → sc ≤ 8 → FirstClear cs sc (8 - sc) j → First (cs ∷ bs) sc 0 j
First-here cs sc j bs small f = record {
  inside = omega arith;
  bit = omega (arith, f.upper, f.lower);
  clear = f.clear;
  start = omega (arith, f.lower);
  least = here;
}
  where
    here :
        (m' j' : ℕ)
        → j' < 8
        → sc ≤ m' * 8 + j'
        → m' * 8 + j' < 0 * 8 + j
        → mask_bit (get_or (cs ∷ bs) m' 0) j' ≢ 0
    here zero j' b l u = f.least j' (omega arith) (omega arith)
    here (suc m') j' b l u = absurd (omega (arith, f.upper))

-- In a later byte, when the first has no clear bit from `sc` on.
First-later :
    (cs sc m j : ℕ) (bs : List ℕ)
    → sc ≤ 8
    → ((k : ℕ) → sc ≤ k → k < 8 → mask_bit cs k ≢ 0)
    → First bs 0 m j
    → First (cs ∷ bs) sc (suc m) j
First-later cs sc m j bs small none_here f = record {
  inside = omega (arith, f.inside);
  bit = f.bit;
  clear = f.clear;
  start = omega arith;
  least = later;
}
  where
    later :
        (m' j' : ℕ)
        → j' < 8
        → sc ≤ m' * 8 + j'
        → m' * 8 + j' < suc m * 8 + j
        → mask_bit (get_or (cs ∷ bs) m' 0) j' ≢ 0
    later zero j' b l u = none_here j' (omega arith) b
    later (suc m') j' b l u = f.least m' j' b (omega arith) (omega arith)

-- With a clear bit to be found, the outer loop returns the first one.
abbrev pub Finds : List ℕ → ℕ → ℕ → ℕ → Type 0
Finds bs i left sc =
    (m : ℕ) × (j : ℕ) × (scan bs i left sc ≡ some (i * 8 + (m * 8 + j))) × First bs sc m j

at_zero : (i k : ℕ) → i * 8 + k ≡ i * 8 + (0 * 8 + k)
at_zero i k = omega arith

no_bit_in_full : (cs k : ℕ) → cs ≡ 255 → k < 8 → mask_bit cs k ≢ 0
no_bit_in_full cs k e h = rw e (omega (arith, mask_bit-full k h))

-- A byte that is full, or that has no clear bit from `sc` on, sends the loop to the next byte.
module _ (cs : ℕ) (bs : List ℕ) (i left sc : ℕ) where
  scan_full : (cs == 255) ≡ true → sc ≡ 0 → scan (cs ∷ bs) i (suc left) sc ≡ scan bs (i + 1) left 0
  unfolding scan
  scan_full full start = rw full (ap (scan bs (i + 1) left) start)

  scan_missing :
      (cs == 255) ≡ false
      → first_clear cs sc (8 - sc) ≡ none
      → scan (cs ∷ bs) i (suc left) sc ≡ scan bs (i + 1) left 0
  unfolding scan
  scan_missing room nothing = rw (room, nothing) (rw room)

pub scan-Finds :
    (bs : List ℕ) (i left sc m j : ℕ)
    → sc ≤ 8
    → Exact bs sc
    → m < left
    → m < length bs
    → j < 8
    → sc ≤ m * 8 + j
    → mask_bit (get_or bs m 0) j ≡ 0
    → Finds bs i left sc
unfolding scan
scan-Finds [] i left sc m j small exact l u b s clear = absurd (omega arith)
scan-Finds (cs ∷ bs) i zero sc m j small exact l u b s clear = absurd (omega arith)
scan-Finds (cs ∷ bs) i (suc left) sc zero j small exact l u b s clear =
    let room : (cs == 255) ≡ false = ground (arith, mask_bit-full j b) in
    elim (Option-cases (first_clear cs sc (8 - sc))) [
      | inl nothing ↦
          absurd (first_clear-none cs sc (8 - sc) nothing j (omega arith) (omega arith) clear)
      | inr (k, found) ↦ (
        0,
        k,
        rw (room, found, at_zero i k),
        First-here cs sc k bs small (first_clear-FirstClear cs sc (8 - sc) k found),
      )
    ]
scan-Finds (cs ∷ bs) i (suc left) sc (suc m) j small exact l u b s clear =
    let (m', j', eq, first) =
      scan-Finds bs (i + 1) left 0 m j (omega arith) (inl refl) (omega arith) (omega arith) b
        (omega arith) clear in
    let shift : i * 8 + (suc m' * 8 + j') ≡ (i + 1) * 8 + (m' * 8 + j') = omega arith in
    elim (Bool-cases (cs == 255)) [
      | inl full ↦
          let start : sc ≡ 0 = ground arith in
          (
            suc m',
            j',
            scan_full cs bs i left sc full start ∙ eq ∙ ap some (sym shift),
            First-later cs sc m' j' bs small (λ k a c. no_bit_in_full cs k (==→eq _ _ full) c)
                first,
          )
      | inr room ↦ elim (Option-cases (first_clear cs sc (8 - sc))) [
        | inl nothing ↦ (
          suc m',
          j',
          scan_missing cs bs i left sc room nothing ∙ eq ∙ ap some (sym shift),
          First-later cs sc m' j' bs small
              (λ k a c. first_clear-none cs sc (8 - sc) nothing k a (omega arith)) first,
        )
        | inr (k, found) ↦ (
          0,
          k,
          rw (room, found, at_zero i k),
          First-here cs sc k bs small (first_clear-FirstClear cs sc (8 - sc) k found),
        )
      ]
    ]
