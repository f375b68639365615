-- ===== src/Bitmap/Update.antt =====
-- dev_upd_bitmap against a map from clusters to flags.
use fcfs.Base.{
  ℕ, zero, suc, ◌/◌, ◌%◌, ◌^◌, ◌<◌, ◌≡◌, refl, ap, sym, Bool, true, false, not, some, List, [], ◌∷◌,
  arith, ◌==◌, if◌then◌else◌, get_elem?, get_or, set, length, length-set, Bool-cases, inl, inr,
}
use mathlib.Core.Bool.{xor}
use fcfs.Base.Bytes.{IsBytes}
use fcfs.Base.Words.{is_neg}
use fcfs.Structs.{BlockListEntry}
use fcfs.Bitmap.{mask_bit, has_free, upd_byte, upd_bitmap}
use fcfs.Bitmap.Bits.{mask_bit-set_bit, mask_bit-clear_bit, set_bit-lt, clear_bit-lt}

-- The flag that the bitmap holds for a cluster.
unfoldable pub used : List ℕ → ℕ → Bool
used bitmap c = mask_bit (get_or bitmap (c / 8) 0) (c % 8) == 1

-- What dev_upd_bitmap leaves: the flag of `cid` says that the cluster is full, every other flag is
-- kept, and the result says whether the flag of `cid` changed.
pub record Updated (bitmap : List ℕ) (full : Bool) (cid : ℕ) (r : Bool × List ℕ) : Type 0 where
  pub flags : (c : ℕ) → used r.1 c ≡ (if c == cid then full else used bitmap c)
  pub changed : r.0 ≡ xor (used bitmap cid) full
  pub same_length : length r.1 ≡ length bitmap
  pub bytes : IsBytes r.1

get_or-set :
    (xs : List ℕ) (i j v : ℕ)
    → i < length xs
    → get_or (set xs i v) j 0 ≡ (if j == i then v else get_or xs j 0)
get_or-set [] i j v h = absurd (omega arith)
get_or-set (x ∷ xs) zero zero v h = refl
get_or-set (x ∷ xs) zero (suc j) v h = ground arith
get_or-set (x ∷ xs) (suc i) zero v h = ground arith
get_or-set (x ∷ xs) (suc i) (suc j) v h = ground (arith, get_or-set xs i j v)

IsBytes-set : (xs : List ℕ) (i v : ℕ) → IsBytes xs → v < 256 → IsBytes (set xs i v)
IsBytes-set [] i v h hv = h
IsBytes-set (x ∷ xs) zero v h hv = (hv, h.1)
IsBytes-set (x ∷ xs) (suc i) v h hv = (h.0, IsBytes-set xs i v h.1 hv)

pub get_or-lt : (xs : List ℕ) (i : ℕ) → IsBytes xs → get_or xs i 0 < 256
get_or-lt [] i h = omega arith
get_or-lt (x ∷ xs) zero h = h.0
get_or-lt (x ∷ xs) (suc i) h = get_or-lt xs i h.1

get_elem?-eq-get_or : (xs : List ℕ) (i : ℕ) → i < length xs → get_elem? xs i ≡ some (get_or xs i 0)
get_elem?-eq-get_or [] i h = absurd (omega arith)
get_elem?-eq-get_or (x ∷ xs) zero h = refl
get_elem?-eq-get_or (x ∷ xs) (suc i) h = get_elem?-eq-get_or xs i (omega arith)

xor-not : (b : Bool) → true ≡ xor (not b) b
unfolding xor
xor-not true = refl
xor-not false = refl

xor_self : (b : Bool) → xor b b ≡ false
unfolding xor
xor_self true = refl
xor_self false = refl

module _ (bitmap : List ℕ) (cid : ℕ) (bs : IsBytes bitmap) (inside : cid / 8 < length bitmap) where
  -- A write to the byte of `cid` that sets bit `cid % 8` to `v` and keeps the other bits.
  used-set :
      (x v : ℕ)
      → ((k : ℕ)
          → k < 8
          → mask_bit x k ≡ (if cid % 8 == k then v else mask_bit (get_or bitmap (cid / 8) 0) k))
      → (c : ℕ) → used (set bitmap (cid / 8) x) c ≡ (if c == cid then v == 1 else used bitmap c)
  unfolding used
  used-set x v h c = ground (arith, get_or-set bitmap (cid / 8) (c / 8) x inside, h (c % 8))

  wrote :
      (full : Bool) (x v : ℕ)
      → used bitmap cid ≡ not full
      → (v == 1) ≡ full
      → x < 256
      → ((k : ℕ)
          → k < 8
          → mask_bit x k ≡ (if cid % 8 == k then v else mask_bit (get_or bitmap (cid / 8) 0) k))
      → Updated bitmap full cid (true, set bitmap (cid / 8) x)
  wrote full x v was fits small bits = record {
    flags = λ c. rw (← fits) (used-set x v bits c);
    changed = rw was (xor-not full);
    same_length = length-set bitmap (cid / 8) x;
    bytes = IsBytes-set bitmap (cid / 8) x bs small;
  }

  kept : (full : Bool) → used bitmap cid ≡ full → Updated bitmap full cid (false, bitmap)
  kept full was = record {
    flags = λ c. ground (arith, ap (used bitmap) {x = c} {y = cid});
    changed = rw was (sym (xor_self full));
    same_length = refl;
    bytes = bs;
  }

  byte_small : get_or bitmap (cid / 8) 0 < 256
  byte_small = get_or-lt bitmap (cid / 8) bs

  upd_byte-Updated :
      (free : Bool)
      → Updated bitmap
          (not free)
          cid
          (upd_byte bitmap free (cid / 8) (cid % 8) (get_or bitmap (cid / 8) 0))
  unfolding upd_byte used
  upd_byte-Updated true = elim (Bool-cases (used bitmap cid)) [
    | inl full ↦ rw full (
        wrote false _ 0 full refl (clear_bit-lt _ _ byte_small (omega arith))
          (mask_bit-clear_bit _ _ byte_small (omega arith)))
    | inr room ↦ rw room (kept false room)
  ]
  upd_byte-Updated false = elim (Bool-cases (used bitmap cid)) [
    | inl full ↦ rw full (kept true full)
    | inr room ↦ rw room (
        wrote true _ 1 room refl (set_bit-lt _ _ byte_small (omega arith))
          (mask_bit-set_bit _ _ byte_small (omega arith)))
  ]

-- dev_upd_bitmap on a cluster that lies inside the bitmap, read through the flags: it returns a
-- result, the flag of the cluster is set exactly when the cluster has no free block, the flags of
-- all other clusters are kept, and it reports a change exactly when the flag changed.
pub upd_bitmap_lem :
    (bitmap : List ℕ) (entrs : List BlockListEntry) (cid : ℕ)
    → IsBytes bitmap
    → cid < 2 ^ 31
    → cid / 8 < length bitmap
    → (r : Bool × List ℕ) × (upd_bitmap bitmap entrs cid ≡ some r)
      × Updated bitmap (not (has_free entrs)) cid r
unfolding upd_bitmap
upd_bitmap_lem bitmap entrs cid bs small inside = (
  upd_byte bitmap (has_free entrs) (cid / 8) (cid % 8) (get_or bitmap (cid / 8) 0),
  rw (nonneg, get_elem?-eq-get_or bitmap (cid / 8) inside),
  upd_byte-Updated bitmap cid bs inside (has_free entrs),
)
  where
    nonneg : is_neg cid ≡ false
    nonneg = ground arith
