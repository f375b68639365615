-- ===== src/Transfer/Ranges.antt =====
-- Parts of a range of bytes.
use fcfs.Base.{
  ℕ, zero, suc, ◌+◌, ◌-◌, ◌≤◌, ◌≡◌, refl, ap, ◌∙◌, sym, inl, inr, some, List, ◌∷◌, ◌++◌, arith,
  length, take, drop, le→ltb,
}
use fcfs.Device.{bytes_at, write_bytes}
use fcfs.Device.Bytes.{length-bytes_at, bytes_at-eq, bytes_at-write_bytes, write_bytes-outside}
use fcfs.Transfer.{slice, overlay}

-- A range with its bounds written otherwise.
pub range : (g : ℕ → ℕ) {p q n k : ℕ} → p ≡ q → n ≡ k → bytes_at g p n ≡ bytes_at g q k
range g e f = λ i. bytes_at g (e i) (f i)

pub bytes_at-add :
    (g : ℕ → ℕ) (p a b : ℕ) → bytes_at g p a ++ bytes_at g (p + a) b ≡ bytes_at g p (a + b)
unfolding bytes_at
bytes_at-add g p zero b =
    range g {p = p + 0} {q = p} {n = b} {k = 0 + b} (omega arith) (omega arith)
bytes_at-add g p (suc a) b =
    ap (λ bs. g p ∷ (bytes_at g (p + 1) a ++ bs))
      (range g {p = p + suc a} {q = p + 1 + a} {n = b} (omega arith) refl)
    ∙ ap (λ bs. g p ∷ bs) (bytes_at-add g (p + 1) a b)
    ∙ range g {p = p} {n = suc (a + b)} {k = suc a + b} refl (omega arith)

pub take-bytes_at : (g : ℕ → ℕ) (p a n : ℕ) → a ≤ n → take a (bytes_at g p n) ≡ bytes_at g p a
unfolding bytes_at
take-bytes_at g p zero n h = refl
take-bytes_at g p (suc a) zero h = absurd (omega arith)
take-bytes_at g p (suc a) (suc n) h =
    ap (λ bs. g p ∷ bs) (take-bytes_at g (p + 1) a n (omega arith))

pub drop-bytes_at :
    (g : ℕ → ℕ) (p a n : ℕ) → a ≤ n → drop a (bytes_at g p n) ≡ bytes_at g (p + a) (n - a)
unfolding bytes_at
drop-bytes_at g p zero n h =
    range g {p = p} {q = p + 0} {n = n} {k = n - 0} (omega arith) (omega arith)
drop-bytes_at g p (suc a) zero h = absurd (omega arith)
drop-bytes_at g p (suc a) (suc n) h =
    drop-bytes_at g (p + 1) a n (omega arith)
    ∙ range g {p = p + 1 + a} {q = p + suc a} {n = n - a} {k = suc n - suc a} (omega arith)
        (omega arith)

-- What ops_read copies out of the blocks.
pub slice-bytes_at :
    (g : ℕ → ℕ) (p off size n : ℕ)
    → off + size ≤ n
    → slice off size (bytes_at g p n) ≡ some (bytes_at g (p + off) size)
slice-bytes_at g p off size n h =
    let long : length (bytes_at g p n) ≡ n = length-bytes_at g p n in
    rw
      (
        le→ltb (length (bytes_at g p n)) (off + size) (omega arith),
        drop-bytes_at g p off n (omega arith),
      )
      (ap some (take-bytes_at g (p + off) size (n - off) (omega arith)))

-- What ops_write makes of the blocks.
pub overlay-bytes_at :
    (g : ℕ → ℕ) (p off n : ℕ) (bytes : List ℕ)
    → off + length bytes ≤ n
    → overlay off bytes (bytes_at g p n) ≡ some (bytes_at (write_bytes g (p + off) bytes) p n)
overlay-bytes_at g p off n bytes h =
    let long : length (bytes_at g p n) ≡ n = length-bytes_at g p n in
    let g' : ℕ → ℕ = write_bytes g (p + off) bytes in
    let front : bytes_at g p off ≡ bytes_at g' p off =
      bytes_at-eq g g' p off (λ a l u. sym (write_bytes-outside g (p + off) bytes a (inl u))) in
    let rest : ℕ = n - (off + length bytes) in
    let back : bytes_at g (p + (off + length bytes)) rest
        ≡ bytes_at g' (p + (off + length bytes)) rest =
      bytes_at-eq g g' (p + (off + length bytes)) rest
        (λ a l u. sym (write_bytes-outside g (p + off) bytes a (inr (omega arith)))) in
    let join : bytes_at g' p off ++ (bytes ++ bytes_at g' (p + (off + length bytes)) rest)
        ≡ bytes_at g' p n =
      ap (λ bs. bytes_at g' p off ++ (bs ++ bytes_at g' (p + (off + length bytes)) rest))
        (sym (bytes_at-write_bytes g (p + off) bytes))
      ∙ ap (λ bs. bytes_at g' p off ++ (bytes_at g' (p + off) (length bytes) ++ bs))
          (range g' {p = p + (off + length bytes)} {q = p + off + length bytes} {n = rest}
            (omega arith) refl)
      ∙ ap (λ bs. bytes_at g' p off ++ bs) (bytes_at-add g' (p + off) (length bytes) rest)
      ∙ bytes_at-add g' p off (length bytes + rest)
      ∙ range g' {p = p} {n = off + (length bytes + rest)} {k = n} refl (omega arith) in
    rw
      (
        le→ltb (length (bytes_at g p n)) (off + length bytes) (omega arith),
        take-bytes_at g p off n (omega arith),
        drop-bytes_at g p (off + length bytes) n (omega arith),
        front,
        back,
      )
      (ap some join)
