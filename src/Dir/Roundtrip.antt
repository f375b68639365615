-- ===== src/Dir/Roundtrip.antt =====
-- dev_write_dir and dev_rm_from_dir followed by dev_read_dir.
use fcfs.Base.{
  ◌≢◌, ◌⊎◌, inl, inr, ℕ, ◌+◌, ◌-◌, ◌*◌, ◌≤◌, ◌<◌, ◌≡◌, refl, ap, ◌∙◌, sym, some, none, Option,
  false, List, arith, All, length, ltb, le→ltb, length-append, length-replicate, replicate,
}
use fcfs.Base.Words.{is_neg, minus_one}
use fcfs.Base.Monad.{ok}
use fcfs.Structs.{BlkInfo}
use fcfs.Volume.{lblk_sz}
use fcfs.Device.{at, bytes_at, write_bytes}
use fcfs.Device.Bytes.{bytes_at-write_bytes}
use fcfs.Utils.{to_blk_cnt}
use fcfs.Utils.Blocks.{to_blk_cnt_lem}
use fcfs.Cache.{Maps, Driver}
use fcfs.FileSeq.{get_file_seq}
use fcfs.Dir.{
  DirEntry, sizeof_dir_entry, encode_dir, dir_of, dir_buf_of, read_blocks, write_blocks, read_dir,
  write_dir, rm_from_dir, remaining, write_back,
}
use fcfs.Dir.Codec.{IsDirEntry, length-encode_dir, read_back, dir_of-dir_buf_of}
use fcfs.Dir.Remove.{Removed, without_fid_lem}
use fcfs.Dir.Loops.{read_blocks-IsFile, write_blocks-IsFile}
use fcfs.Transfer.Contents.{blocks_of, IsFile-at}
use fcfs.Transfer.Ranges.{range}
use fcfs.Transfer.Writes.{is_neg_lem}
use fcfs.Transfer.Span.{count_le}
use fcfs.Transfer.Loops.{over}
use fcfs.Transfer.Open.{IsOpen, IsOpen-over, get_file_seq-IsOpen}

-- the count of blocks that dev_write_dir gives to the entries
abbrev pub dir_blocks : ℕ → List DirEntry → ℕ
dir_blocks lblk ents = to_blk_cnt (length ents * sizeof_dir_entry + 4) lblk

-- The buffer of dev_write_dir fills its blocks.
length-dir_buf_of :
    (lblk n : ℕ) (ents : List DirEntry)
    → All IsDirEntry ents
    → length ents * sizeof_dir_entry + 4 ≤ n * lblk
    → length (dir_buf_of lblk n ents) ≡ n * lblk
unfolding dir_buf_of
length-dir_buf_of lblk n ents h room =
    let size : ℕ = length ents * sizeof_dir_entry in
    let zeros : List ℕ = replicate (n * lblk - (4 + size)) 0 in
    omega (
      arith,
      length-append (encode_dir ents) zeros,
      length-encode_dir ents h,
      length-replicate {A = ℕ} (n * lblk - (4 + size)) 0,
    )

dir_blocks_fit :
    (lblk : ℕ) (ents : List DirEntry)
    → 0 < lblk
    → length ents * sizeof_dir_entry + 4 ≤ dir_blocks lblk ents * lblk
dir_blocks_fit lblk ents pos =
    let size : ℕ = length ents * sizeof_dir_entry + 4 in
    (to_blk_cnt_lem size lblk size pos (count_le size lblk pos)).0

module _ (m : Maps) (fid h : ℕ) (l : List BlkInfo) where
  read_dir_step :
      (d d1 : Driver m) (bs : List ℕ) (r : Option (List DirEntry))
      → get_file_seq m fid d ≡ ok (h, length l) d
      → read_blocks m h (length l) 0 (length l) d ≡ ok bs d1
      → dir_of bs ≡ some r
      → read_dir m fid d ≡ ok r d1
  unfolding read_dir
  read_dir_step d d1 bs r seq loop dirs = rw (seq, loop, dirs) refl

  write_dir_step :
      (fuel : ℕ) (d d1 : Driver m) (ents : List DirEntry) (n r : ℕ)
      → dir_blocks (lblk_sz d.vol) ents ≡ n
      → get_file_seq m fid d ≡ ok (h, length l) d
      → ltb (length l) n ≡ false
      → is_neg (length l) ≡ false
      → write_blocks m h (length l) 0 (length l) (dir_buf_of (lblk_sz d.vol) n ents) 0 d ≡ ok r d1
      → write_dir m fuel fid ents d ≡ ok r d1
  unfolding write_dir
  write_dir_step fuel d d1 ents n r count seq room sign loop =
      rw (count, seq, room, sign, loop) refl

-- dev_read_dir returns what the bytes of the blocks are read as.
read_dir-IsOpen :
    (m : Maps) (fid h : ℕ) (l : List BlkInfo) (g : ℕ → ℕ) (d : Driver m)
    (r : Option (List DirEntry))
    → IsOpen m d fid h (length l) l g
    → dir_of (bytes_at g (0 * lblk_sz d.vol) (length l * lblk_sz d.vol)) ≡ some r
    → (p : ℕ) × (read_dir m fid d ≡ ok r (over d (at d.vol p)))
read_dir-IsOpen m fid h l g d r o dirs =
    let n : ℕ = length l in
    let (p, read) = read_blocks-IsFile m h l d n 0 n g o.list o.contents (omega arith) in
    (
      p,
      read_dir_step m fid h l d (over d (at d.vol p)) _ r (get_file_seq-IsOpen m fid h n l g d o)
          read dirs,
    )

-- For a directory whose list of blocks is cached and has exactly the blocks that the entries need,
-- and entries whose fields and names have the sizes of the C type: dev_write_dir returns 0, and
-- dev_read_dir then returns the entries, NULL for none.
pub write_dir-read_dir :
    (m : Maps) (fuel fid h : ℕ) (l : List BlkInfo) (g : ℕ → ℕ) (d : Driver m) (ents : List DirEntry)
    → IsOpen m d fid h (length l) l g
    → All IsDirEntry ents
    → dir_blocks (lblk_sz d.vol) ents ≡ length l
    → (d1 : Driver m) × (d2 : Driver m) × (write_dir m fuel fid ents d ≡ ok 0 d1)
      × (read_dir m fid d1 ≡ ok (read_back ents) d2)
write_dir-read_dir m fuel fid h l g d ents o is count =
    let lblk : ℕ = lblk_sz d.vol in
    let n : ℕ = length l in
    let buf : List ℕ = dir_buf_of lblk n ents in
    let g' : ℕ → ℕ = write_bytes g 0 buf in
    let need : length ents * sizeof_dir_entry + 4 ≤ n * lblk =
      rw⁻¹ count (dir_blocks_fit lblk ents (omega (arith, o.header))) in
    let whole : bytes_at g' (0 * lblk) (n * lblk) ≡ buf =
      range g' {p = 0 * lblk} {q = 0} {n = n * lblk} (omega arith)
        (sym (length-dir_buf_of lblk n ents is need))
      ∙ bytes_at-write_bytes g 0 buf in
    let (w, wrote, rest, f) =
      write_blocks-IsFile m h l d lblk n 0 n g' (blocks_of lblk g) (blocks_of lblk g') refl o.list
        o.contents o.cipher (omega arith) (λ i lt. absurd (omega arith)) (λ i lo. refl) in
    let same : lblk_sz w ≡ lblk = ap (λ x. lblk_sz x) rest in
    let o' : IsOpen m (over d w) fid h n l g' = IsOpen-over m fid h n l g d w g' rest o f in
    let (p, read) = read_dir-IsOpen m fid h l g' (over d w) (read_back ents) o' (
      ap (λ x. dir_of (bytes_at g' (0 * x) (n * x))) same
      ∙ ap dir_of whole
      ∙ dir_of-dir_buf_of lblk n ents is (omega (arith, o.addressed, need))) in
    (
      over d w,
      over d (at w p),
      write_dir_step m fid h l fuel d (over d w) ents n 0 count
          (get_file_seq-IsOpen m fid h n l g d o) (le→ltb n n (omega arith))
          (is_neg_lem n o.list_short)
          (ap (λ bs. write_blocks m h n 0 n bs 0 d) (sym whole) ∙ wrote),
      read,
    )

rm_none :
    (m : Maps) (fuel fid id : ℕ) (d d1 : Driver m) (dirs : Option (List DirEntry))
    → read_dir m fid d ≡ ok dirs d1
    → remaining dirs id ≡ none
    → rm_from_dir m fuel fid id d ≡ ok minus_one d1
unfolding rm_from_dir write_back
rm_none m fuel fid id d d1 dirs one two = rw (one, two) refl

rm_some :
    (m : Maps) (fuel fid id res : ℕ) (d d1 d2 : Driver m) (dirs : Option (List DirEntry))
    (r : List DirEntry)
    → read_dir m fid d ≡ ok dirs d1
    → remaining dirs id ≡ some r
    → write_dir m fuel fid r d1 ≡ ok res d2
    → rm_from_dir m fuel fid id d ≡ ok 0 d2
unfolding rm_from_dir write_back
rm_some m fuel fid id res d d1 d2 dirs r one two three = rw (one, two, three) refl

-- For an open directory whose blocks hold entries, as many blocks as one entry less needs: either no
-- entry has the number, and dev_rm_from_dir returns -1 and moves the stream only; or it returns 0, and
-- dev_read_dir then returns the entries without one that has the number, in any order, NULL for none.
pub rm_from_dir-read_dir :
    (m : Maps) (fuel fid h id : ℕ) (l : List BlkInfo) (g : ℕ → ℕ) (d : Driver m)
    (ents : List DirEntry)
    → IsOpen m d fid h (length l) l g
    → dir_of (bytes_at g (0 * lblk_sz d.vol) (length l * lblk_sz d.vol)) ≡ some (some ents)
    → All IsDirEntry ents
    → to_blk_cnt ((length ents - 1) * sizeof_dir_entry + 4) (lblk_sz d.vol) ≡ length l
    → ((p : ℕ) × (rm_from_dir m fuel fid id d ≡ ok minus_one (over d (at d.vol p)))
        × All (λ e. e.fid ≢ id) ents)
      ⊎ ((r : List DirEntry) × (d1 : Driver m) × (d2 : Driver m) × (rm_from_dir m fuel fid id d
            ≡ ok 0 d1)
          × (read_dir m fid d1 ≡ ok (read_back r) d2)
          × Removed ents id r)
rm_from_dir-read_dir m fuel fid h id l g d ents o held is count =
    let n : ℕ = length l in
    let (p, read) = read_dir-IsOpen m fid h l g d (some ents) o held in
    let o1 : IsOpen m (over d (at d.vol p)) fid h n l g =
      IsOpen-over m fid h n l g d (at d.vol p) g refl o (IsFile-at p o.contents) in
    elim (without_fid_lem ents id) [
      | inl (eq, all) ↦ inl (p, rm_none m fuel fid id d _ (some ents) read eq, all)
      | inr (r, eq, gone) ↦
          let fewer : length ents - 1 ≡ length r = omega (arith, gone.count) in
          let (d1, d2, wrote, again) =
            write_dir-read_dir m fuel fid h l g (over d (at d.vol p)) r o1 (gone.valid is) (
              ap (λ k. to_blk_cnt (k * sizeof_dir_entry + 4) (lblk_sz d.vol)) (sym fewer)
              ∙ count) in
          inr (r, d1, d2, rm_some m fuel fid id 0 d _ d1 (some ents) r read eq wrote, again, gone)
    ]
