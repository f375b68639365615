-- ===== src/Transfer/PastEnd.antt =====
-- ops_read behind the end of a file.
use fcfs.Base.{
  ℕ, length, List, true, false, ◌==◌, inl, inr, Bool-cases, ◌+◌, ◌-◌, ◌*◌, ◌^◌, ◌≤◌, ◌<◌, ◌≡◌, refl,
  some, none, arith, ltb, lt→ltb, ltb→lt, ltb→le,
}
use fcfs.Base.Words.{u32, u64, is_neg}
use fcfs.Base.Monad.{ok, fault}
use fcfs.Structs.{BlkInfo}
use fcfs.Volume.{lblk_sz}
use fcfs.Device.{at, bytes_at}
use fcfs.Device.Bytes.{length-bytes_at}
use fcfs.Utils.{to_blk_cnt}
use fcfs.Utils.Blocks.{to_blk_cnt_lem}
use fcfs.Persist.Regions.{mul_mono}
use fcfs.Cache.{Maps, Driver}
use fcfs.FileSeq.{get_file_seq, file_size}
use fcfs.Transfer.{slice, fetch, first_block, block_off, widen, read_bytes, ops_read}
use fcfs.Transfer.Contents.{IsFile-at}
use fcfs.Transfer.Loops.{over, fetch-IsFile}
use fcfs.Transfer.Open.{IsOpen, size_of, IsOpen-over, get_file_seq-IsOpen, file_size-IsOpen}
use fcfs.Transfer.Span.{InBlocks, InBlocks_lem, left_over, quotient_le}
use fcfs.Transfer.Reads.{widen_small}

wrap_neg :
    (off diff : ℕ)
    → off < diff
    → diff < 2 ^ 31
    → (u32 (off + (2 ^ 64 - diff)) ≡ 2 ^ 32 - (diff - off))
      × (is_neg (2 ^ 32 - (diff - off)) ≡ true)
wrap_neg off diff lt small = (omega arith, ground arith)

wrap_small :
    (off diff : ℕ)
    → diff ≤ off
    → off < 2 ^ 31
    → (u32 (off + (2 ^ 64 - diff)) ≡ off - diff) × (is_neg (off - diff) ≡ false)
wrap_small off diff le small = (omega arith, ground arith)

left_room : (q n l r : ℕ) → q * l + r ≤ n * l → q ≤ n → r ≤ (n - q) * l
left_room q n l r h le = omega (arith, left_over q n l r 0 (omega arith) le)

slice_behind : (off size : ℕ) (bs : List ℕ) → length bs < off + size → slice off size bs ≡ none
slice_behind off size bs h = rw (lt→ltb _ _ h) refl

module _ (m : Maps) (fid h n : ℕ) (l : List BlkInfo) (g : ℕ → ℕ) where
  read_bytes_neg :
      (d : Driver m) (size offset span : ℕ)
      → u32 (block_off (lblk_sz d.vol) offset + size) ≡ span
      → is_neg span ≡ true
      → get_file_seq m fid d ≡ ok (h, length l) d
      → read_bytes m fid size offset d ≡ fault
  unfolding read_bytes
  read_bytes_neg d size offset span sp sign seq = rw (sp, sign, seq) refl

  read_bytes_behind :
      (d d1 : Driver m) (size offset span : ℕ) (bs : List ℕ)
      → u32 (block_off (lblk_sz d.vol) offset + size) ≡ span
      → is_neg span ≡ false
      → get_file_seq m fid d ≡ ok (h, length l) d
      → fetch m h
          (length l)
          (first_block (lblk_sz d.vol) offset)
          (to_blk_cnt span (lblk_sz d.vol))
          d
        ≡ ok (some bs) d1
      → slice (block_off (lblk_sz d.vol) offset) size bs ≡ none
      → read_bytes m fid size offset d ≡ fault
  unfolding read_bytes
  read_bytes_behind d d1 size offset span bs sp sign seq loop part =
      rw (sp, sign, seq, loop, part) refl

  ops_read_wrapped :
      (d d1 : Driver m) (len size offset : ℕ)
      → len < 2 ^ 31
      → len < offset
      → offset < 2 ^ 31
      → offset + size < 2 ^ 64
      → file_size m fid d ≡ ok len d1
      → read_bytes m fid (2 ^ 64 - (offset - len)) offset d1 ≡ fault
      → ops_read m fid size offset d ≡ fault
  unfolding ops_read
  ops_read_wrapped d d1 len size offset small past high sum one two =
      let w : widen len ≡ len = widen_small len small in
      let t : u64 (offset + size) ≡ offset + size = omega arith in
      let longer : ltb len (offset + size) ≡ true = lt→ltb _ _ (omega arith) in
      let z : u64 (len + 2 ^ 64 - offset) ≡ 2 ^ 64 - (offset - len) = omega arith in
      let some_left : ((2 ^ 64 - (offset - len)) == 0) ≡ false = ground arith in
      rw (one, w, t, longer, z, some_left, two) refl

  -- A wrapped count is a negative span, or the copy runs behind the blocks.
  read_bytes_wrapped :
      (d : Driver m) (diff offset : ℕ)
      → IsOpen m d fid h n l g
      → offset + 4 ≤ n * lblk_sz d.vol
      → 1 ≤ diff
      → diff ≤ offset
      → read_bytes m fid (2 ^ 64 - diff) offset d ≡ fault
  read_bytes_wrapped d diff offset o inside pos low =
      let lblk : ℕ = lblk_sz d.vol in
      let b : ℕ = first_block lblk offset in
      let off : ℕ = block_off lblk offset in
      let s : InBlocks lblk n 0 offset =
        InBlocks_lem lblk n 0 offset (omega (arith, o.header)) o.addressed (omega arith) in
      let seq = get_file_seq-IsOpen m fid h n l g d o in
      let high : offset < 2 ^ 31 = omega (arith, o.addressed) in
      let small : off < 2 ^ 31 = omega (arith, s.start, high) in
      elim (Bool-cases (ltb off diff)) [
        | inl over_it ↦
            let neg = wrap_neg off diff (ltb→lt _ _ over_it) (omega (arith, high, low)) in
            read_bytes_neg d (2 ^ 64 - diff) offset (2 ^ 32 - (diff - off)) neg.0 neg.1 seq
        | inr under ↦
            let le : b ≤ n =
              quotient_le b n lblk (omega (arith, s.start, inside)) (omega (arith, o.header)) in
            let under' : diff ≤ off = ltb→le _ _ under in
            let few : to_blk_cnt (off - diff) lblk ≤ n - b =
              (to_blk_cnt_lem (off - diff) lblk (n - b) (omega (arith, o.header))
                (left_room b n lblk (off - diff) (omega (arith, s.start, inside)) le)).1 in
            let whole : to_blk_cnt (off - diff) lblk * lblk ≤ n * lblk =
              mul_mono lblk (to_blk_cnt (off - diff) lblk) n (omega (arith, few)) in
            let pos' = wrap_small off diff under' small in
            let (p, loop) =
              fetch-IsFile m h l d n b (to_blk_cnt (off - diff) lblk) g o.list o.contents
                (omega (arith, few, le)) in
            read_bytes_behind d (over d (at d.vol p)) (2 ^ 64 - diff) offset (off - diff) _ pos'.0
              pos'.1 seq loop
              (slice_behind off (2 ^ 64 - diff)
                (bytes_at g (b * lblk) (to_blk_cnt (off - diff) lblk * lblk))
                (omega (
                  arith,
                  length-bytes_at g (b * lblk) (to_blk_cnt (off - diff) lblk * lblk),
                  whole,
                  o.addressed,
                  high,
                  low,
                )))
      ]

  -- A read of an open file that starts behind its end, at an offset that its blocks have, ends in
  -- undefined behaviour: the count is not cut to nothing but wraps around.
  pub ops_read_past_end :
      (d : Driver m) (size offset : ℕ)
      → IsOpen m d fid h n l g
      → size_of g < offset
      → offset + 4 ≤ n * lblk_sz d.vol
      → offset + size < 2 ^ 64
      → ops_read m fid size offset d ≡ fault
  ops_read_past_end d size offset o past inside sum =
      let (p, one) = file_size-IsOpen m fid h n l g d o in
      let o1 : IsOpen m (over d (at d.vol p)) fid h n l g =
        IsOpen-over m fid h n l g d (at d.vol p) g refl o (IsFile-at p o.contents) in
      ops_read_wrapped d (over d (at d.vol p)) (size_of g) size offset
        (omega (arith, o.addressed, inside)) past (omega (arith, o.addressed, inside)) sum one
        (read_bytes_wrapped (over d (at d.vol p)) (offset - size_of g) offset o1 inside
          (omega arith) (omega arith))
