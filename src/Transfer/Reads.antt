-- ===== src/Transfer/Reads.antt =====
-- ops_read on an open file.
use fcfs.Base.{
  length, [], true, ◌==◌, inl, inr, Bool-cases, ==→eq, ℕ, ◌+◌, ◌-◌, ◌*◌, ◌^◌, ◌≤◌, ◌<◌, ◌≡◌, refl,
  ap, ◌∙◌, some, false, List, arith, ltb, if◌then◌else◌,
}
use fcfs.Base.Words.{u32, u64, is_neg}
use fcfs.Base.Monad.{ok}
use fcfs.Structs.{BlkInfo}
use fcfs.Volume.{lblk_sz}
use fcfs.Device.{at, bytes_at}
use fcfs.Utils.{to_blk_cnt}
use fcfs.Cache.{Maps, Driver}
use fcfs.FileSeq.{get_file_seq, file_size}
use fcfs.Transfer.{slice, fetch, first_block, block_off, widen, read_bytes, ops_read}
use fcfs.Transfer.Contents.{IsFile-at}
use fcfs.Transfer.Ranges.{range, slice-bytes_at}
use fcfs.Transfer.Loops.{over, fetch-IsFile}
use fcfs.Transfer.Open.{IsOpen, size_of, IsOpen-over, get_file_seq-IsOpen, file_size-IsOpen}
use fcfs.Transfer.Span.{InBlocks, InBlocks_lem}

module _ (m : Maps) (fid h n : ℕ) (l : List BlkInfo) (g : ℕ → ℕ) where
  read_bytes_step :
      (d d1 : Driver m) (size offset span count : ℕ) (bs buf : List ℕ)
      → u32 (block_off (lblk_sz d.vol) offset + size) ≡ span
      → is_neg span ≡ false
      → to_blk_cnt span (lblk_sz d.vol) ≡ count
      → get_file_seq m fid d ≡ ok (h, length l) d
      → fetch m h (length l) (first_block (lblk_sz d.vol) offset) count d ≡ ok (some bs) d1
      → slice (block_off (lblk_sz d.vol) offset) size bs ≡ some buf
      → u32 size ≡ size
      → read_bytes m fid size offset d ≡ ok (size, buf) d1
  unfolding read_bytes
  read_bytes_step d d1 size offset span count bs buf sp sign cnt seq loop part small =
      rw (sp, sign, cnt, seq, loop, part, small) refl

  -- The bytes of the file at an offset, when its blocks hold them.
  pub read_bytes-IsOpen :
      (d : Driver m) (size offset : ℕ)
      → IsOpen m d fid h n l g
      → offset + 4 + size ≤ n * lblk_sz d.vol
      → (p : ℕ) × (read_bytes m fid size offset d
          ≡ ok (size, bytes_at g (offset + 4) size) (over d (at d.vol p)))
  read_bytes-IsOpen d size offset o fits =
      let lblk : ℕ = lblk_sz d.vol in
      let b : ℕ = first_block lblk offset in
      let off : ℕ = block_off lblk offset in
      let s : InBlocks lblk n size offset =
        InBlocks_lem lblk n size offset (omega (arith, o.header)) o.addressed fits in
      let k : ℕ = to_blk_cnt (off + size) lblk in
      let (p, loop) = fetch-IsFile m h l d n b k g o.list o.contents s.blocks in
      (
        p,
        read_bytes_step d (over d (at d.vol p)) size offset (off + size) k _ _ s.span_u32
            s.span_nonneg refl (get_file_seq-IsOpen m fid h n l g d o) loop
            (slice-bytes_at g (b * lblk) off size (k * lblk) s.held
              ∙ ap some (range g {n = size} s.start refl))
            (omega (arith, o.addressed, fits)),
      )

-- how many of `size` bytes at `offset` a file of `len` bytes has
abbrev pub available : ℕ → ℕ → ℕ → ℕ
available len size offset = if ltb len (offset + size) then len - offset else size

available_past :
    (len size offset : ℕ)
    → ltb len (offset + size) ≡ true
    → len - offset ≡ available len size offset
available_past len size offset past = rw past refl

available_before :
    (len size offset : ℕ) → ltb len (offset + size) ≡ false → size ≡ available len size offset
available_before len size offset before = rw before refl

nothing_left : (len offset : ℕ) → (len == offset) ≡ true → 0 ≡ len - offset
nothing_left len offset same = omega (arith, ==→eq len offset same)

fits_before :
    (len size offset room : ℕ)
    → ltb len (offset + size) ≡ false
    → 4 + len ≤ room
    → offset + 4 + size ≤ room
fits_before len size offset room before fits = ground arith

pub widen_small : (len : ℕ) → len < 2 ^ 31 → widen len ≡ len
widen_small len h = let sign : is_neg len ≡ false = ground arith in rw sign refl

module _ (m : Maps) (fid : ℕ) where
  ops_read_inside :
      (d d1 d2 : Driver m) (len size offset : ℕ) (r : ℕ × List ℕ)
      → len < 2 ^ 31
      → offset + size < 2 ^ 64
      → ltb len (offset + size) ≡ false
      → file_size m fid d ≡ ok len d1
      → read_bytes m fid size offset d1 ≡ ok r d2
      → ops_read m fid size offset d ≡ ok r d2
  unfolding ops_read
  ops_read_inside d d1 d2 len size offset r small sum inside one two =
      let w : widen len ≡ len = widen_small len small in
      let t : u64 (offset + size) ≡ offset + size = omega arith in rw (one, w, t, inside, two) refl

  ops_read_end :
      (d d1 : Driver m) (len size offset : ℕ)
      → len < 2 ^ 31
      → offset + size < 2 ^ 64
      → ltb len (offset + size) ≡ true
      → len ≡ offset
      → file_size m fid d ≡ ok len d1
      → ops_read m fid size offset d ≡ ok (0, []) d1
  unfolding ops_read
  ops_read_end d d1 len size offset small sum past e one =
      let w : widen len ≡ len = widen_small len small in
      let t : u64 (offset + size) ≡ offset + size = omega arith in
      let z : u64 (len + 2 ^ 64 - offset) ≡ 0 = omega arith in rw (one, w, t, past, z) refl

  ops_read_cut :
      (d d1 d2 : Driver m) (len size offset : ℕ) (r : ℕ × List ℕ)
      → len < 2 ^ 31
      → offset + size < 2 ^ 64
      → ltb len (offset + size) ≡ true
      → offset < len
      → file_size m fid d ≡ ok len d1
      → read_bytes m fid (len - offset) offset d1 ≡ ok r d2
      → ops_read m fid size offset d ≡ ok r d2
  unfolding ops_read
  ops_read_cut d d1 d2 len size offset r small sum past lt one two =
      let w : widen len ≡ len = widen_small len small in
      let t : u64 (offset + size) ≡ offset + size = omega arith in
      let z : u64 (len + 2 ^ 64 - offset) ≡ len - offset = omega arith in
      let some_left : ((len - offset) == 0) ≡ false = ground arith in
      rw (one, w, t, past, z, some_left, two) refl

  -- At an offset that is not behind the end of an open file, ops_read returns the count of the bytes
  -- that the file has there, at most the count asked for, and copies these bytes.
  pub ops_read-IsOpen :
      (h n : ℕ) (l : List BlkInfo) (g : ℕ → ℕ) (d : Driver m) (size offset : ℕ)
      → IsOpen m d fid h n l g
      → 4 + size_of g ≤ n * lblk_sz d.vol
      → offset ≤ size_of g
      → offset + size < 2 ^ 64
      → (p : ℕ) × (ops_read m fid size offset d
          ≡ ok
              (
                available (size_of g) size offset,
                bytes_at g (offset + 4) (available (size_of g) size offset),
              )
              (over d (at d.vol p)))
  unfolding bytes_at
  ops_read-IsOpen h n l g d size offset o fits inside sum =
      let len : ℕ = size_of g in
      let (p, one) = file_size-IsOpen m fid h n l g d o in
      let o1 : IsOpen m (over d (at d.vol p)) fid h n l g =
        IsOpen-over m fid h n l g d (at d.vol p) g refl o (IsFile-at p o.contents) in
      let small : len < 2 ^ 31 = omega (arith, o.addressed, fits) in
      elim (Bool-cases (ltb len (offset + size))) [
        | inl past ↦ elim (Bool-cases (len == offset)) [
          | inl same ↦ (
            p,
            ops_read_end d _ len size offset small sum past (==→eq _ _ same) one
                ∙ ap (λ k. ok (k, bytes_at g (offset + 4) k) (over d (at d.vol p)))
                    (nothing_left len offset same ∙ available_past len size offset past),
          )
          | inr other ↦
              let (q, two) =
                read_bytes-IsOpen m fid h n l g (over d (at d.vol p)) (len - offset) offset o1
                  (omega arith) in
              (
                q,
                ops_read_cut d _ _ len size offset _ small sum past (ground arith) one two
                    ∙ ap (λ k. ok (k, bytes_at g (offset + 4) k) (over d (at d.vol q)))
                        (available_past len size offset past),
              )
        ]
        | inr before ↦
            let (q, two) =
              read_bytes-IsOpen m fid h n l g (over d (at d.vol p)) size offset o1
                (fits_before len size offset _ before fits) in
            (
              q,
              ops_read_inside d _ _ len size offset _ small sum before one two
                  ∙ ap (λ k. ok (k, bytes_at g (offset + 4) k) (over d (at d.vol q)))
                      (available_before len size offset before),
            )
      ]
