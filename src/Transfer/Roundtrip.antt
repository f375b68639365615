-- ===== src/Transfer/Roundtrip.antt =====
-- ops_write followed by ops_read.
use fcfs.Base.{
  ℕ, ◌+◌, ◌*◌, ◌^◌, ◌≤◌, ◌<◌, ◌≡◌, refl, ap, ◌∙◌, List, arith, ltb, length, inl, inr, Bool-cases,
  le→ltb, ltb→le,
}
use fcfs.Base.Bytes.{to_le, from_le, from_le-to_le}
use fcfs.Base.Monad.{ok}
use fcfs.Structs.{BlkInfo}
use fcfs.Volume.{lblk_sz}
use fcfs.Device.{at, bytes_at, write_bytes}
use fcfs.Device.Bytes.{bytes_at-write_outside, bytes_at-write_bytes}
use fcfs.Cache.{Maps, Driver}
use fcfs.Transfer.{write_file, ops_read}
use fcfs.Transfer.Loops.{over}
use fcfs.Transfer.Open.{IsOpen, size_of}
use fcfs.Transfer.Reads.{available, ops_read-IsOpen}
use fcfs.Transfer.Writes.{grown, written, write_file-IsOpen}

grown-bounds :
    (len size offset room : ℕ)
    → 4 + len ≤ room
    → offset + 4 + size ≤ room
    → (offset + size ≤ grown len size offset) × (4 + grown len size offset ≤ room)
grown-bounds len size offset room has fits = elim (Bool-cases (ltb len (offset + size))) [
  | inl past ↦ rw past (omega arith, omega arith)
  | inr before ↦ rw before (ltb→le _ _ before, has)
]

-- The header that was written is the length.
pub size_of-written :
    (g : ℕ → ℕ) (bytes : List ℕ) (offset : ℕ)
    → grown (size_of g) (length bytes) offset < 2 ^ 31
    → size_of (written g bytes offset) ≡ grown (size_of g) (length bytes) offset
size_of-written g bytes offset small =
    let len : ℕ = grown (size_of g) (length bytes) offset in
    ap from_le (bytes_at-write_bytes (write_bytes g (offset + 4) bytes) 0 (to_le 4 len))
    ∙ from_le-to_le 4 len (omega arith)

-- The bytes stand where they were written.
pub written-bytes :
    (g : ℕ → ℕ) (bytes : List ℕ) (offset : ℕ)
    → bytes_at (written g bytes offset) (offset + 4) (length bytes) ≡ bytes
written-bytes g bytes offset =
    bytes_at-write_outside (write_bytes g (offset + 4) bytes) 0 _ (offset + 4) (length bytes)
      (inr (omega arith))
    ∙ bytes_at-write_bytes g (offset + 4) bytes

available-all : (len size offset : ℕ) → offset + size ≤ len → available len size offset ≡ size
available-all len size offset h = rw (le→ltb len (offset + size) h) refl

-- For an open file whose blocks have room for the bytes: ops_write returns the count of the bytes,
-- and ops_read of that count at the same offset then returns it with the same bytes.
pub write_file-ops_read :
    (m : Maps) (fuel fid h n : ℕ) (l : List BlkInfo) (g : ℕ → ℕ) (d : Driver m) (bytes : List ℕ)
    (offset : ℕ)
    → IsOpen m d fid h n l g
    → 4 + size_of g ≤ n * lblk_sz d.vol
    → offset + 4 + length bytes ≤ n * lblk_sz d.vol
    → (d1 : Driver m) × (d2 : Driver m) × (write_file m fuel fid bytes offset d
        ≡ ok (length bytes) d1)
      × (ops_read m fid (length bytes) offset d1 ≡ ok (length bytes, bytes) d2)
write_file-ops_read m fuel fid h n l g d bytes offset o has fits =
    let size : ℕ = length bytes in
    let g' : ℕ → ℕ = written g bytes offset in
    let (w, wrote, rest, o') = write_file-IsOpen m fid h n l g fuel d bytes offset o has fits in
    let (reach, inside) = grown-bounds (size_of g) size offset (n * lblk_sz d.vol) has fits in
    let same : lblk_sz w ≡ lblk_sz d.vol = ap (λ x. lblk_sz x) rest in
    let len : size_of g' ≡ grown (size_of g) size offset =
      size_of-written g bytes offset (omega (arith, o.addressed)) in
    let room : 4 + size_of g' ≤ n * lblk_sz d.vol = omega (arith, len, inside) in
    let all : available (size_of g') size offset ≡ size =
      available-all (size_of g') size offset (omega arith) in
    let (p, r) =
      ops_read-IsOpen m fid h n l g' (over d w) size offset o' (rw same room) (omega arith)
        (omega (arith, o.addressed)) in
    (
      over d w,
      over d (at w p),
      wrote,
      r
          ∙ ap (λ k. ok (k, bytes_at g' (offset + 4) k) (over d (at w p))) all
          ∙ ap (λ bs. ok (size, bs) (over d (at w p))) (written-bytes g bytes offset),
    )
