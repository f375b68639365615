-- ===== src/Transfer/Open.antt =====
-- An open file: its list of blocks is in the cache, and its blocks hold a sequence of bytes.
use fcfs.Base.{
  ℕ, zero, suc, ◌+◌, ◌*◌, ◌^◌, ◌≤◌, ◌<◌, ◌≡◌, ◌≢◌, refl, ap, ◌∙◌, sym, subst, inl, inr, some, List,
  arith, length, ◌==◌, get_elem?, Bool-cases, ==→eq, le→ltb,
}
use fcfs.Base.Bytes.{to_le, from_le}
use fcfs.Base.Monad.{ok}
use fcfs.Structs.{BlkInfo}
use fcfs.Volume.{Volume, IsCipher, lblk_sz}
use fcfs.Device.{at, bytes_at, write_bytes, block_pos}
use fcfs.Device.Bytes.{length-bytes_at, bytes_at-write_outside}
use fcfs.Seq.ById.{read_by_id-Holds}
use fcfs.FileSeq.{
  get_file_seq, read_from, write_to, header_of, with_header, file_size, set_file_size,
}
use fcfs.Cache.{Maps, Driver, decimal, list_of, cache_seq_get}
use fcfs.Transfer.Ranges.{range, take-bytes_at, overlay-bytes_at}
use fcfs.Transfer.Contents.{IsFile, IsFile-at, IsFile-eq, blocks_of, replaced, write_by_id-IsFile}
use fcfs.Transfer.Loops.{over, read_from_lem, write_to_lem}

-- The list of file `fid` is cached under number `h`, and its first `n` blocks hold the bytes `g`.
pub record IsOpen (m : Maps) (d : Driver m) (fid h n : ℕ) (l : List BlkInfo) (g : ℕ → ℕ)
    : Type 0 where
  pub cached : m.seqs.look d.map_seq (decimal fid) ≡ some h
  pub list : get_elem? d.lists h ≡ some (some l)
  pub contents : IsFile d.vol l n (blocks_of (lblk_sz d.vol) g)
  pub cipher : IsCipher (lblk_sz d.vol) d.vol.ciph
  pub some_block : 1 ≤ n
  pub all_blocks : n ≤ length l
  pub header : 4 ≤ lblk_sz d.vol
  pub addressed : n * lblk_sz d.vol < 2 ^ 31
  pub list_short : length l < 2 ^ 31

-- the length that the header of the file holds
abbrev pub size_of : (ℕ → ℕ) → ℕ
size_of g = from_le (bytes_at g 0 4)

later_block : (i lblk : ℕ) → i ≢ 0 → lblk ≤ i * lblk
later_block zero lblk ne = absurd (ne refl)
later_block (suc i) lblk ne = omega arith

-- A new length in the header changes the first block only.
blocks_of-header :
    (lblk : ℕ) (g : ℕ → ℕ) (size : ℕ)
    → 4 ≤ lblk
    → (i : ℕ)
    → blocks_of lblk (write_bytes g 0 (to_le 4 size)) i
      ≡ replaced (blocks_of lblk g) 0 (bytes_at (write_bytes g 0 (to_le 4 size)) 0 lblk) i
blocks_of-header lblk g size head i = elim (Bool-cases (i == 0)) [
  | inl same ↦ rw same (
      range (write_bytes g 0 (to_le 4 size)) {p = i * lblk} {q = 0}
        (ap (λ x. x * lblk) (==→eq i 0 same) ∙ omega arith) refl)
  | inr other ↦ rw other (
      bytes_at-write_outside g 0 (to_le 4 size) (i * lblk) lblk
        (inr (omega (arith, later_block i lblk (ground arith), head))))
]

module _ (m : Maps) (fid h n : ℕ) (l : List BlkInfo) (g : ℕ → ℕ) where
  -- the file with other contents over another volume
  pub IsOpen-over :
      (d : Driver m) (w : Volume) (g' : ℕ → ℕ)
      → w ≡ record d.vol { dev = w.dev }
      → IsOpen m d fid h n l g
      → IsFile w l n (blocks_of (lblk_sz d.vol) g')
      → IsOpen m (over d w) fid h n l g'
  IsOpen-over d w g' rest o f =
      let same : lblk_sz w ≡ lblk_sz d.vol = ap (λ x. lblk_sz x) rest in
      record {
        cached = o.cached;
        list = o.list;
        contents = subst (λ x. IsFile w l n (blocks_of x g')) (sym same) f;
        cipher = subst (λ x. IsCipher (lblk_sz x) x.ciph) (sym rest) o.cipher;
        some_block = o.some_block;
        all_blocks = o.all_blocks;
        header = rw same o.header;
        addressed = rw same o.addressed;
        list_short = o.list_short;
      }

  module _ (d : Driver m) (o : IsOpen m d fid h n l g) where
    pub get_file_seq-IsOpen : get_file_seq m fid d ≡ ok (h, length l) d
    unfolding get_file_seq cache_seq_get
    get_file_seq-IsOpen = rw (o.cached, o.list, list_of) refl

    header_block : bytes_at g (0 * lblk_sz d.vol) (lblk_sz d.vol) ≡ bytes_at g 0 (lblk_sz d.vol)
    header_block = range g {p = 0 * lblk_sz d.vol} {q = 0} (omega arith) refl

    read_header :
        (p : ℕ) × (read_from m 0 h (length l) d
          ≡ ok (some (bytes_at g 0 (lblk_sz d.vol))) (over d (at d.vol p)))
    read_header =
        let f = o.contents in
        let inf : BlkInfo = f.blk 0 in
        let p : ℕ = block_pos d.vol inf.cid inf.bid + lblk_sz d.vol in
        (
          p,
          read_from_lem m h l d 0 (length l) _ (at d.vol p) o.list (
                read_by_id-Holds d.vol (length l) l 0 inf _ (f.placed 0 o.some_block)
                  (f.holds 0 o.some_block))
              ∙ ap (λ bs. ok (some bs) (over d (at d.vol p))) header_block,
        )

    header_of-bytes : header_of (bytes_at g 0 (lblk_sz d.vol)) ≡ some (size_of g)
    header_of-bytes =
        rw
          (le→ltb (length (bytes_at g 0 (lblk_sz d.vol))) 4
            (omega (arith, length-bytes_at g 0 (lblk_sz d.vol), o.header)))
          (ap (λ bs. some (from_le bs)) (take-bytes_at g 0 4 (lblk_sz d.vol) o.header))

  file_size_step :
      (d d1 : Driver m) (buf : List ℕ) (size : ℕ)
      → get_file_seq m fid d ≡ ok (h, length l) d
      → read_from m 0 h (length l) d ≡ ok (some buf) d1
      → header_of buf ≡ some size
      → file_size m fid d ≡ ok size d1
  unfolding file_size
  file_size_step d d1 buf size a b c = rw (a, b, c) refl

  set_file_size_step :
      (d d1 d2 : Driver m) (buf longer : List ℕ) (size r : ℕ)
      → get_file_seq m fid d ≡ ok (h, length l) d
      → read_from m 0 h (length l) d ≡ ok (some buf) d1
      → with_header size buf ≡ some longer
      → write_to m 0 longer h (length l) d1 ≡ ok r d2
      → set_file_size m fid size d ≡ ok r d2
  unfolding set_file_size
  set_file_size_step d d1 d2 buf longer size r a b c e = rw (a, b, c, e) refl

  -- dev_file_size returns what the header holds.
  pub file_size-IsOpen :
      (d : Driver m)
      → IsOpen m d fid h n l g
      → (p : ℕ) × (file_size m fid d ≡ ok (size_of g) (over d (at d.vol p)))
  file_size-IsOpen d o =
      let (p, read) = read_header d o in
      (
        p,
        file_size_step d (over d (at d.vol p)) _ (size_of g) (get_file_seq-IsOpen d o) read
            (header_of-bytes d o),
      )

  -- dev_set_file_size changes the header alone.
  pub set_file_size-IsOpen :
      (d : Driver m) (size : ℕ)
      → IsOpen m d fid h n l g
      → (w : Volume) × (set_file_size m fid size d ≡ ok 0 (over d w))
        × (w ≡ record d.vol { dev = w.dev })
        × IsOpen m (over d w) fid h n l (write_bytes g 0 (to_le 4 size))
  set_file_size-IsOpen d size o =
      let lblk : ℕ = lblk_sz d.vol in
      let g' : ℕ → ℕ = write_bytes g 0 (to_le 4 size) in
      let (p, read) = read_header d o in
      let longer : with_header size (bytes_at g 0 lblk) ≡ some (bytes_at g' 0 lblk) =
        overlay-bytes_at g 0 0 lblk (to_le 4 size) o.header in
      let (w, wrote, rest, f) =
        write_by_id-IsFile (at d.vol p) l n (blocks_of lblk g) 0 (bytes_at g' 0 lblk)
          (IsFile-at p o.contents) o.cipher o.some_block (length-bytes_at g' 0 lblk) in
      (
        w,
        set_file_size_step d (over d (at d.vol p)) (over d w) _ _ size 0 (get_file_seq-IsOpen d o)
            read longer (write_to_lem m h l (over d (at d.vol p)) 0 (length l) 0 _ w o.list wrote),
        rest,
        IsOpen-over d w g' rest o
            (IsFile-eq (blocks_of lblk g') (λ i lt. blocks_of-header lblk g size o.header i) f),
      )
