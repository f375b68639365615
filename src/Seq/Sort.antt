-- ===== src/Seq/Sort.antt =====
-- What the sort of a block list does.
use fcfs.Base.{
  ℕ, zero, suc, ◌-◌, ◌≡◌, refl, ◌≢◌, ap, ◌∙◌, Bool, true, false, some, List, [], ◌∷◌, arith, ltb,
  if◌then◌else◌, length, Bool-cases, inl, inr,
}
use fcfs.Structs.{BlkInfo}
use fcfs.Seq.{pass, sort, find_num}

-- The list with its first two links in order.
unfoldable pub first_two : List BlkInfo → List BlkInfo
first_two [] = []
first_two (a ∷ []) = a ∷ []
first_two (a ∷ b ∷ l) = if ltb b.num a.num then b ∷ a ∷ l else a ∷ b ∷ l

pass-ordered :
    (rounds : ℕ) (a b : BlkInfo) (l : List BlkInfo) (flag : Bool)
    → ltb b.num a.num ≡ false
    → pass rounds (a ∷ b ∷ l) flag ≡ (a ∷ b ∷ l, flag)
unfolding pass
pass-ordered zero a b l flag h = refl
pass-ordered (suc rounds) a b l flag h = rw h (pass-ordered rounds a b l flag h)

pass-swapped :
    (rounds : ℕ) (a b : BlkInfo) (l : List BlkInfo) (flag : Bool)
    → ltb b.num a.num ≡ true
    → pass (suc rounds) (a ∷ b ∷ l) flag ≡ (b ∷ a ∷ l, true)
unfolding pass
pass-swapped rounds a b l flag h =
    let back : ltb a.num b.num ≡ false = ground arith in rw h (pass-ordered rounds b a l true back)

module _ (fuel : ℕ) (l l' : List BlkInfo) where
  sort_stop : pass (length l - 1) l false ≡ (l', false) → sort (suc fuel) l ≡ some l'
  unfolding sort
  sort_stop e = rw e

  sort_again : pass (length l - 1) l false ≡ (l', true) → sort (suc fuel) l ≡ sort fuel l'
  unfolding sort
  sort_again e = rw e

rounds_left : (n : ℕ) → suc (suc n) - 1 ≡ suc n
rounds_left n = omega arith

sort_ordered :
    (fuel : ℕ) (a b : BlkInfo) (l : List BlkInfo)
    → ltb b.num a.num ≡ false
    → sort (suc fuel) (a ∷ b ∷ l) ≡ some (a ∷ b ∷ l)
sort_ordered fuel a b l h =
    sort_stop fuel (a ∷ b ∷ l) (a ∷ b ∷ l) (pass-ordered (suc (suc (length l)) - 1) a b l false h)

sort_pair :
    (fuel : ℕ) (a b : BlkInfo) (l : List BlkInfo)
    → sort (suc (suc fuel)) (a ∷ b ∷ l) ≡ some (first_two (a ∷ b ∷ l))
unfolding first_two
sort_pair fuel a b l = elim (Bool-cases (ltb b.num a.num)) [
  | inl swap ↦
      let back : ltb a.num b.num ≡ false = ground arith in
      rw swap (
        sort_again (suc fuel) (a ∷ b ∷ l) (b ∷ a ∷ l) (
          ap (λ n. pass n (a ∷ b ∷ l) false) (rounds_left (length l))
          ∙ pass-swapped (length l) a b l false swap)
        ∙ sort_ordered fuel b a l back)
  | inr fine ↦ rw fine (sort_ordered (suc fuel) a b l fine)
]

-- The sort of dev_get_file_seq ends after at most two passes, so with fuel for two it returns; and
-- all that it does is to put the first two links in order, whatever stands behind them.
pub sort-first_two : (fuel : ℕ) (l : List BlkInfo) → sort (suc (suc fuel)) l ≡ some (first_two l)
unfolding sort first_two pass
sort-first_two fuel [] = refl
sort-first_two fuel (a ∷ []) = refl
sort-first_two fuel (a ∷ b ∷ l) = sort_pair fuel a b l

-- The order of the list does not matter to the search by number, as long as no number stands twice
-- in front.
pub find_num-first_two :
    (n : ℕ) (l : List BlkInfo) (id : ℕ)
    → ((a b : BlkInfo) (r : List BlkInfo) → l ≡ a ∷ b ∷ r → a.num ≢ b.num)
    → find_num (suc (suc n)) (first_two l) id ≡ find_num (suc (suc n)) l id
unfolding find_num first_two
find_num-first_two n [] id h = refl
find_num-first_two n (a ∷ []) id h = refl
find_num-first_two n (a ∷ b ∷ l) id h = ground (arith, h a b l refl)
