-- ===== src/Device/Bytes.antt =====
-- Ranges of bytes on the device.
use fcfs.Base.{
  ℕ, true, false, zero, suc, ◌+◌, ◌≤◌, ◌<◌, ◌≡◌, refl, ◌⊎◌, ap, ap₂, ◌∙◌, sym, List, [], ◌∷◌, arith,
  length, ◌==◌,
}
use fcfs.Base.Bytes.{IsBytes}
use fcfs.Device.{bytes_at, write_bytes}

pub length-bytes_at : (f : ℕ → ℕ) (p n : ℕ) → length (bytes_at f p n) ≡ n
unfolding bytes_at
length-bytes_at f p zero = refl
length-bytes_at f p (suc n) = ap suc (length-bytes_at f (p + 1) n)

-- A write leaves every address outside its range.
pub write_bytes-outside :
    (f : ℕ → ℕ) (p : ℕ) (bs : List ℕ) (a : ℕ)
    → (a < p) ⊎ (p + length bs ≤ a)
    → write_bytes f p bs a ≡ f a
unfolding write_bytes
write_bytes-outside f p [] a h = refl
write_bytes-outside f p (b ∷ bs) a h =
    let ne : (a == p) ≡ false = ground arith in
    rw ne (write_bytes-outside f (p + 1) bs a (omega arith))

pub bytes_at-eq :
    (f g : ℕ → ℕ) (p n : ℕ)
    → ((a : ℕ) → p ≤ a → a < p + n → f a ≡ g a)
    → bytes_at f p n ≡ bytes_at g p n
unfolding bytes_at
bytes_at-eq f g p zero h = refl
bytes_at-eq f g p (suc n) h =
    ap₂ ◌∷◌ (h p (omega arith) (omega arith))
      (bytes_at-eq f g (p + 1) n (λ a l u. h a (omega arith) (omega arith)))

-- What was written is read back.
pub bytes_at-write_bytes :
    (f : ℕ → ℕ) (p : ℕ) (bs : List ℕ) → bytes_at (write_bytes f p bs) p (length bs) ≡ bs
unfolding bytes_at write_bytes
bytes_at-write_bytes f p [] = refl
bytes_at-write_bytes f p (b ∷ bs) =
    let same : (p == p) ≡ true = ground arith in
    ap₂ ◌∷◌ (rw same) (
      bytes_at-eq (write_bytes f p (b ∷ bs)) (write_bytes f (p + 1) bs) (p + 1) (length bs)
        (λ a l u. past a l)
      ∙ bytes_at-write_bytes f (p + 1) bs)
  where
    past : (a : ℕ) → p + 1 ≤ a → write_bytes f p (b ∷ bs) a ≡ write_bytes f (p + 1) bs a
    past a l = let ne : (a == p) ≡ false = ground arith in rw ne

-- A range that does not meet the written one is read as before.
pub bytes_at-write_outside :
    (f : ℕ → ℕ) (p : ℕ) (bs : List ℕ) (q n : ℕ)
    → (q + n ≤ p) ⊎ (p + length bs ≤ q)
    → bytes_at (write_bytes f p bs) q n ≡ bytes_at f q n
bytes_at-write_outside f p bs q n h =
    bytes_at-eq (write_bytes f p bs) f q n (λ a l u. write_bytes-outside f p bs a (ground arith))

-- The device holds bytes.
pub IsBytes-bytes_at : (f : ℕ → ℕ) (p n : ℕ) → ((a : ℕ) → f a < 256) → IsBytes (bytes_at f p n)
unfolding bytes_at
IsBytes-bytes_at f p zero h = tt
IsBytes-bytes_at f p (suc n) h = (h p, IsBytes-bytes_at f (p + 1) n h)

-- What has been written over `n` bytes is found there.
pub bytes_at-written :
    (f : ℕ → ℕ) (p n : ℕ) (bs : List ℕ) → length bs ≡ n → bytes_at (write_bytes f p bs) p n ≡ bs
bytes_at-written f p n bs e =
    ap (bytes_at (write_bytes f p bs) p) (sym e) ∙ bytes_at-write_bytes f p bs
