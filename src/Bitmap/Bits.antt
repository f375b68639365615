-- ===== src/Bitmap/Bits.antt =====
-- What the mask operations on a byte of the bitmap do, checked at every byte and position.
use fcfs.Base.{
  ℕ, ◌<◌, ◌≡◌, refl, Bool, true, ◌==◌, if◌then◌else◌, passes, passes_sound, ==→eq, ltb, ltb→lt,
}
use fcfs.Bitmap.{mask_bit, set_bit, clear_bit}

-- A test of a byte and two positions passes everywhere if it passes at each value.
abbrev table : (ℕ → ℕ → ℕ → Bool) → Bool
table p = passes 256 (λ x. passes 8 (λ j. passes 8 (p x j)))

table_sound :
    (p : ℕ → ℕ → ℕ → Bool) → table p ≡ true → (x j k : ℕ) → x < 256 → j < 8 → k < 8 → p x j k ≡ true
table_sound p h x j k hx hj hk =
    passes_sound 8 (p x j) k
      (passes_sound 8 (λ j. passes 8 (p x j)) j (passes_sound 256 _ x h hx) hj) hk

abbrev set_test : ℕ → ℕ → ℕ → Bool
set_test x j k = mask_bit (set_bit x j) k == (if j == k then 1 else mask_bit x k)

set_table : table set_test ≡ true
unfolding passes mask_bit set_bit
set_table = refl

abbrev clear_test : ℕ → ℕ → ℕ → Bool
clear_test x j k = mask_bit (clear_bit x j) k == (if j == k then 0 else mask_bit x k)

clear_table : table clear_test ≡ true
unfolding passes mask_bit clear_bit
clear_table = refl

range_table : passes 256 (λ x. passes 8 (λ j. ltb (set_bit x j) 256)) ≡ true
unfolding passes set_bit
range_table = refl

clear_range_table : passes 256 (λ x. passes 8 (λ j. ltb (clear_bit x j) 256)) ≡ true
unfolding passes clear_bit
clear_range_table = refl

digit_table : passes 256 (λ x. passes 8 (λ j. ltb (mask_bit x j) 2)) ≡ true
unfolding passes mask_bit
digit_table = refl

full_table : passes 8 (λ j. mask_bit 255 j == 1) ≡ true
unfolding passes mask_bit
full_table = refl

module _ (x j : ℕ) (hx : x < 256) (hj : j < 8) where
  pub mask_bit-set_bit :
      (k : ℕ) → k < 8 → mask_bit (set_bit x j) k ≡ (if j == k then 1 else mask_bit x k)
  mask_bit-set_bit k hk = ==→eq _ _ (table_sound set_test set_table x j k hx hj hk)

  pub mask_bit-clear_bit :
      (k : ℕ) → k < 8 → mask_bit (clear_bit x j) k ≡ (if j == k then 0 else mask_bit x k)
  mask_bit-clear_bit k hk = ==→eq _ _ (table_sound clear_test clear_table x j k hx hj hk)

  pub set_bit-lt : set_bit x j < 256
  set_bit-lt = ltb→lt _ _ (passes_sound 8 _ j (passes_sound 256 _ x range_table hx) hj)

  pub clear_bit-lt : clear_bit x j < 256
  clear_bit-lt = ltb→lt _ _ (passes_sound 8 _ j (passes_sound 256 _ x clear_range_table hx) hj)

  pub mask_bit-lt : mask_bit x j < 2
  mask_bit-lt = ltb→lt _ _ (passes_sound 8 _ j (passes_sound 256 _ x digit_table hx) hj)

pub mask_bit-full : (j : ℕ) → j < 8 → mask_bit 255 j ≡ 1
mask_bit-full j hj = ==→eq _ _ (passes_sound 8 _ j full_table hj)

empty_table : passes 8 (λ j. mask_bit 0 j == 0) ≡ true
unfolding passes mask_bit
empty_table = refl

pub mask_bit-zero : (j : ℕ) → j < 8 → mask_bit 0 j ≡ 0
mask_bit-zero j hj = ==→eq _ _ (passes_sound 8 _ j empty_table hj)
