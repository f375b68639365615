-- ===== src/Transfer/Writes.antt =====
-- ops_write on an open file that has the blocks for the bytes.
use fcfs.Base.{
  ℕ, ◌+◌, ◌*◌, ◌^◌, ◌≤◌, ◌<◌, ◌≡◌, refl, ap, ◌∙◌, some, false, List, arith, ltb, if◌then◌else◌,
  length, inl, inr, ◌⊎◌, le→ltb,
}
use fcfs.Base.Words.{u32, is_neg}
use fcfs.Base.Bytes.{to_le, from_le}
use fcfs.Base.Monad.{ok}
use fcfs.Structs.{BlkInfo}
use fcfs.Volume.{Volume, lblk_sz}
use fcfs.Device.{at, bytes_at, write_bytes}
use fcfs.Device.Bytes.{bytes_at-write_outside}
use fcfs.Utils.{to_blk_cnt}
use fcfs.Persist.Regions.{mul_mono}
use fcfs.Cache.{Maps, Driver}
use fcfs.FileSeq.{get_file_seq, file_size, set_file_size}
use fcfs.Transfer.{overlay, fetch, store, first_block, block_off, widen, write_file}
use fcfs.Transfer.Contents.{IsFile-at, blocks_of}
use fcfs.Transfer.Ranges.{overlay-bytes_at}
use fcfs.Transfer.Loops.{over, fetch-IsFile, store-IsFile}
use fcfs.Transfer.Open.{
  IsOpen, IsOpen-over, size_of, get_file_seq-IsOpen, file_size-IsOpen, set_file_size-IsOpen,
}
use fcfs.Transfer.Span.{InBlocks, InBlocks_lem}
use fcfs.Transfer.Reads.{widen_small}

-- the length of a file of `len` bytes after a write
abbrev pub grown : ℕ → ℕ → ℕ → ℕ
grown len size offset = if ltb len (offset + size) then offset + size else len

-- the contents of a file after a write: its bytes behind the header, then the header
abbrev pub written : (ℕ → ℕ) → List ℕ → ℕ → ℕ → ℕ
written g bytes offset =
    write_bytes (write_bytes g (offset + 4) bytes) 0
      (to_le 4 (grown (size_of g) (length bytes) offset))

-- how many blocks a write of `size` bytes covers
abbrev touched : ℕ → ℕ → ℕ → ℕ
touched lblk offset size = to_blk_cnt (block_off lblk offset + size) lblk

pub is_neg_lem : (n : ℕ) → n < 2 ^ 31 → is_neg n ≡ false
is_neg_lem n h = ground arith

grown_word :
    (len size offset : ℕ)
    → len < 2 ^ 31
    → offset + size < 2 ^ 31
    → (if ltb (widen len) (offset + size) then u32 (offset + size) else len) ≡ grown len size offset
grown_word len size offset small sum =
    let t : u32 (offset + size) ≡ offset + size = omega arith in rw (widen_small len small, t) refl

-- A write into the blocks from `b` on leaves the other ones.
blocks_outside :
    (g : ℕ → ℕ) (lblk n b k p : ℕ) (bytes : List ℕ)
    → b * lblk ≤ p
    → p + length bytes ≤ (b + k) * lblk
    → (i : ℕ) → i < n
    → (i < b) ⊎ (b + k ≤ i)
    → blocks_of lblk (write_bytes g p bytes) i ≡ blocks_of lblk g i
blocks_outside g lblk n b k p bytes lo hi i lt (inl front) =
    bytes_at-write_outside g p bytes (i * lblk) lblk
      (inl (omega (arith, lo, mul_mono lblk (i + 1) b (omega arith))))
blocks_outside g lblk n b k p bytes lo hi i lt (inr back) =
    bytes_at-write_outside g p bytes (i * lblk) lblk
      (inr (omega (arith, hi, mul_mono lblk (b + k) i back)))

covered :
    (lblk b k off offset size : ℕ)
    → b * lblk + off ≡ offset + 4
    → off + size ≤ k * lblk
    → offset + 4 + size ≤ (b + k) * lblk
covered lblk b k off offset size start held = grind arith

module _ (m : Maps) (fid h n : ℕ) (l : List BlkInfo) (g : ℕ → ℕ) where
  write_file_step :
      (fuel : ℕ) (d d1 d2 d3 d4 : Driver m) (bytes : List ℕ) (offset len longer r : ℕ)
      (bs buf : List ℕ)
      → get_file_seq m fid d ≡ ok (h, length l) d
      → ltb
          (length l)
          (first_block (lblk_sz d.vol) offset + touched (lblk_sz d.vol) offset (length bytes))
        ≡ false
      → is_neg (length l) ≡ false
      → fetch m h
          (length l)
          (first_block (lblk_sz d.vol) offset)
          (touched (lblk_sz d.vol) offset (length bytes))
          d
        ≡ ok (some bs) d1
      → overlay (block_off (lblk_sz d.vol) offset) bytes bs ≡ some buf
      → store m h
          (length l)
          (first_block (lblk_sz d.vol) offset)
          (touched (lblk_sz d.vol) offset (length bytes))
          buf
          d1
        ≡ ok 0 d2
      → file_size m fid d2 ≡ ok len d3
      → (if ltb (widen len) (offset + length bytes) then u32 (offset + length bytes) else len)
        ≡ longer
      → set_file_size m fid longer d3 ≡ ok r d4
      → u32 (length bytes) ≡ length bytes
      → write_file m fuel fid bytes offset d ≡ ok (length bytes) d4
  unfolding write_file
  write_file_step fuel d d1 d2 d3 d4 bytes offset len longer r bs buf seq room sign loop part back
        one word two small =
      rw (seq, room, sign, loop, part, back, one, word, two, small) refl

  -- the loops of ops_write between the two calls of the cache
  record Stored (d : Driver m) (bytes : List ℕ) (offset : ℕ) : Type 0 where
    buf : List ℕ
    longer : List ℕ
    d1 : Driver m
    w : Volume
    fetched :
        fetch m h
          (length l)
          (first_block (lblk_sz d.vol) offset)
          (touched (lblk_sz d.vol) offset (length bytes))
          d
        ≡ ok (some buf) d1
    joined : overlay (block_off (lblk_sz d.vol) offset) bytes buf ≡ some longer
    stored :
        store m h
          (length l)
          (first_block (lblk_sz d.vol) offset)
          (touched (lblk_sz d.vol) offset (length bytes))
          longer
          d1
        ≡ ok 0 (over d w)
    rest : w ≡ record d.vol { dev = w.dev }
    room :
        first_block (lblk_sz d.vol) offset + touched (lblk_sz d.vol) offset (length bytes)
        ≤ length l
    open_after : IsOpen m (over d w) fid h n l (write_bytes g (offset + 4) bytes)

  Stored_lem :
      (d : Driver m) (bytes : List ℕ) (offset : ℕ)
      → IsOpen m d fid h n l g
      → offset + 4 + length bytes ≤ n * lblk_sz d.vol
      → Stored d bytes offset
  Stored_lem d bytes offset o fits =
      let lblk : ℕ = lblk_sz d.vol in
      let b : ℕ = first_block lblk offset in
      let off : ℕ = block_off lblk offset in
      let k : ℕ = touched lblk offset (length bytes) in
      let g' : ℕ → ℕ = write_bytes g (offset + 4) bytes in
      let s : InBlocks lblk n (length bytes) offset =
        InBlocks_lem lblk n (length bytes) offset (omega (arith, o.header)) o.addressed fits in
      let (p, fetched) = fetch-IsFile m h l d n b k g o.list o.contents s.blocks in
      let (w, stored, rest, f) =
        store-IsFile m h l (over d (at d.vol p)) lblk n b k g' (blocks_of lblk g)
          (blocks_of lblk g') refl o.list (IsFile-at p o.contents) o.cipher s.blocks
          (blocks_outside g lblk n b k (offset + 4) bytes (omega (arith, s.start))
            (covered lblk b k off offset (length bytes) s.start s.held))
          (λ i lo hi. refl) in
      record {
        buf = bytes_at g (b * lblk) (k * lblk);
        longer = bytes_at g' (b * lblk) (k * lblk);
        d1 = over d (at d.vol p);
        w = w;
        fetched = fetched;
        joined =
            overlay-bytes_at g (b * lblk) off (k * lblk) bytes s.held
            ∙ ap (λ q. some (bytes_at (write_bytes g q bytes) (b * lblk) (k * lblk))) s.start;
        stored = stored;
        rest = rest;
        room = omega (arith, s.blocks, o.all_blocks);
        open_after = IsOpen-over m fid h n l g d w g' rest o f;
      }

  -- ops_write of bytes that fit in the blocks of an open file returns the count of the bytes and
  -- leaves the file open, with the bytes at the offset and the length in the header not less than
  -- their end; all other bytes are as before, and so is all of the volume but the device.
  pub write_file-IsOpen :
      (fuel : ℕ) (d : Driver m) (bytes : List ℕ) (offset : ℕ)
      → IsOpen m d fid h n l g
      → 4 + size_of g ≤ n * lblk_sz d.vol
      → offset + 4 + length bytes ≤ n * lblk_sz d.vol
      → (w : Volume) × (write_file m fuel fid bytes offset d ≡ ok (length bytes) (over d w))
        × (w ≡ record d.vol { dev = w.dev })
        × IsOpen m (over d w) fid h n l (written g bytes offset)
  write_file-IsOpen fuel d bytes offset o has fits =
      let s : Stored d bytes offset = Stored_lem d bytes offset o fits in
      let g' : ℕ → ℕ = write_bytes g (offset + 4) bytes in
      let same : size_of g' ≡ size_of g =
        ap from_le (bytes_at-write_outside g (offset + 4) bytes 0 4 (inl (omega arith))) in
      let len : ℕ = size_of g in
      let (p, one) = file_size-IsOpen m fid h n l g' (over d s.w) s.open_after in
      let o' : IsOpen m (over d (at s.w p)) fid h n l g' =
        IsOpen-over m fid h n l g' (over d s.w) (at s.w p) g' refl s.open_after
          (IsFile-at p s.open_after.contents) in
      let (w, two, rest, o'') =
        set_file_size-IsOpen m fid h n l g' (over d (at s.w p)) (grown len (length bytes) offset)
          o' in
      (
        w,
        write_file_step fuel d s.d1 (over d s.w) (over d (at s.w p)) (over d w) bytes offset len
            (grown len (length bytes) offset) 0 s.buf s.longer
            (get_file_seq-IsOpen m fid h n l g d o) (le→ltb _ _ s.room)
            (is_neg_lem (length l) o.list_short) s.fetched s.joined s.stored
            (one ∙ ap (λ x. ok x (over d (at s.w p))) same)
            (grown_word len (length bytes) offset (omega (arith, o.addressed))
              (omega (arith, o.addressed)))
            two (omega (arith, o.addressed)),
        rest ∙ (λ i. record (s.rest i) { dev = w.dev }),
        o'',
      )
