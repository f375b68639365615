-- ===== src/Fmt/Writes.antt =====
-- Five writes to a drive one behind the other, as the formatter does them, and what is read back.
use fcfs.Base.{ℕ, ◌+◌, ◌≤◌, ◌≡◌, ◌∙◌, sym, List, arith, length, inl, inr}
use fcfs.Device.{bytes_at, write_bytes}
use fcfs.Device.Bytes.{bytes_at-write_bytes, bytes_at-write_outside}

read_back :
    (f : ℕ → ℕ) (p q n : ℕ) (bs : List ℕ)
    → p ≡ q
    → length bs ≡ n
    → bytes_at (write_bytes f p bs) q n ≡ bs
read_back f p q n bs e k =
    (λ i. bytes_at (write_bytes f p bs) (sym e i) (sym k i)) ∙ bytes_at-write_bytes f p bs

earlier :
    (f : ℕ → ℕ) (p : ℕ) (bs : List ℕ) (q n : ℕ)
    → q + n ≤ p
    → bytes_at (write_bytes f p bs) q n ≡ bytes_at f q n
earlier f p bs q n h = bytes_at-write_outside f p bs q n (inl h)

-- the bytes of a drive after the five writes of the formatter
abbrev pub five_writes :
    (ℕ → ℕ) → ℕ → ℕ → ℕ → ℕ → ℕ → List ℕ → List ℕ → List ℕ → List ℕ → List ℕ → ℕ → ℕ
five_writes f p0 p1 p2 p3 p4 a b c d e =
    write_bytes (write_bytes (write_bytes (write_bytes (write_bytes f p0 a) p1 b) p2 c) p3 d) p4 e

module _ (f : ℕ → ℕ) (p0 p1 p2 p3 p4 : ℕ) (a b c d e : List ℕ) (h0 : p0 + length a ≤ p1)
    (h1 : p1 + length b ≤ p2) (h2 : p2 + length c ≤ p3) (h3 : p3 + length d ≤ p4) where
  first_write :
      (q n : ℕ) → p0 ≡ q → length a ≡ n → bytes_at (five_writes f p0 p1 p2 p3 p4 a b c d e) q n ≡ a
  first_write q n u w =
      earlier _ p4 e q n (omega arith)
      ∙ earlier _ p3 d q n (omega arith)
      ∙ earlier _ p2 c q n (omega arith)
      ∙ earlier _ p1 b q n (omega arith)
      ∙ read_back f p0 q n a u w

  second_write :
      (q n : ℕ) → p1 ≡ q → length b ≡ n → bytes_at (five_writes f p0 p1 p2 p3 p4 a b c d e) q n ≡ b
  second_write q n u w =
      earlier _ p4 e q n (omega arith)
      ∙ earlier _ p3 d q n (omega arith)
      ∙ earlier _ p2 c q n (omega arith)
      ∙ read_back _ p1 q n b u w

  third_write :
      (q n : ℕ) → p2 ≡ q → length c ≡ n → bytes_at (five_writes f p0 p1 p2 p3 p4 a b c d e) q n ≡ c
  third_write q n u w =
      earlier _ p4 e q n (omega arith) ∙ earlier _ p3 d q n (omega arith) ∙ read_back _ p2 q n c u w

  fourth_write :
      (q n : ℕ) → p3 ≡ q → length d ≡ n → bytes_at (five_writes f p0 p1 p2 p3 p4 a b c d e) q n ≡ d
  fourth_write q n u w = earlier _ p4 e q n (omega arith) ∙ read_back _ p3 q n d u w

  -- Each of the five writes is read back, since none of the later ones meets it.
  pub five_regions :
      (q0 q1 q2 q3 q4 n0 n1 n2 n3 n4 : ℕ)
      → (p0 ≡ q0) × (p1 ≡ q1) × (p2 ≡ q2) × (p3 ≡ q3) × (p4 ≡ q4)
      → (length a ≡ n0) × (length b ≡ n1) × (length c ≡ n2) × (length d ≡ n3) × (length e ≡ n4)
      → (bytes_at (five_writes f p0 p1 p2 p3 p4 a b c d e) q0 n0 ≡ a)
        × (bytes_at (five_writes f p0 p1 p2 p3 p4 a b c d e) q1 n1 ≡ b)
        × (bytes_at (five_writes f p0 p1 p2 p3 p4 a b c d e) q2 n2 ≡ c)
        × (bytes_at (five_writes f p0 p1 p2 p3 p4 a b c d e) q3 n3 ≡ d)
        × (bytes_at (five_writes f p0 p1 p2 p3 p4 a b c d e) q4 n4 ≡ e)
  five_regions q0 q1 q2 q3 q4 n0 n1 n2 n3 n4 (u0, u1, u2, u3, u4) (w0, w1, w2, w3, w4) = (
    first_write q0 n0 u0 w0,
    second_write q1 n1 u1 w1,
    third_write q2 n2 u2 w2,
    fourth_write q3 n3 u3 w3,
    read_back _ p4 q4 n4 e u4 w4,
  )

  -- What lies behind the fifth write is left.
  pub behind_writes :
      (q n : ℕ)
      → p4 + length e ≤ q
      → bytes_at (five_writes f p0 p1 p2 p3 p4 a b c d e) q n ≡ bytes_at f q n
  behind_writes q n h =
      bytes_at-write_outside _ p4 e q n (inr h)
      ∙ bytes_at-write_outside _ p3 d q n (inr (omega arith))
      ∙ bytes_at-write_outside _ p2 c q n (inr (omega arith))
      ∙ bytes_at-write_outside _ p1 b q n (inr (omega arith))
      ∙ bytes_at-write_outside f p0 a q n (inr (omega arith))
