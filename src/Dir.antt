-- ===== src/Dir.antt =====
-- fcfs/src/dev/dir.c: a directory is a file of entries of 64 bytes behind the file's header.
pub mod Codec
pub mod Remove
pub mod Loops
pub mod Roundtrip
use fcfs.Base.{
  ℕ, zero, suc, ◌+◌, ◌-◌, ◌*◌, ◌/◌, Option, none, some, List, [], ◌∷◌, ◌++◌, ltb, ◌==◌,
  if◌then◌else◌, length, get_elem?, take, drop, replicate,
}
use fcfs.Base.Bytes.{to_le, from_le}
use fcfs.Base.Monad.{fault, ◌>>=◌, pure, get, need}
use fcfs.Base.Words.{is_neg, minus_one}
use fcfs.Structs.{sizeof_file_header}
use fcfs.Volume.{lblk_sz}
use fcfs.Utils.{to_blk_cnt}
use fcfs.Cache.{Maps, D}
use fcfs.FileSeq.{get_file_seq, read_from, write_to, extend}

abbrev pub max_file_name_length : ℕ
max_file_name_length = 32

abbrev pub sizeof_dir_entry : ℕ
sizeof_dir_entry = 64

-- fcfs_dir_entry_t; `name` is the array of bytes.
pub record DirEntry : Type 0 where
  pub fid : ℕ
  pub mode : ℕ
  pub ctime : ℕ
  pub atime : ℕ
  pub mtime : ℕ
  pub name : List ℕ

-- The bytes of the entries; the padding is zero.
pub encode_dir : List DirEntry → List ℕ
encode_dir [] = []
encode_dir (e ∷ es) =
    to_le 2 e.fid
    ++ (0
        ∷ 0
        ∷ (to_le 4 e.mode
            ++ (to_le 8 e.ctime
                ++ (to_le 8 e.atime ++ (to_le 8 e.mtime ++ (e.name ++ encode_dir es))))))

-- The first `n` entries in a buffer.
unfoldable pub decode_dir : ℕ → List ℕ → List DirEntry
decode_dir zero bs = []
decode_dir (suc n) bs =
    record {
      fid = from_le (take 2 bs);
      mode = from_le (take 4 (drop 4 bs));
      ctime = from_le (take 8 (drop 8 bs));
      atime = from_le (take 8 (drop 16 bs));
      mtime = from_le (take 8 (drop 24 bs));
      name = take max_file_name_length (drop 32 bs);
    }
    ∷ decode_dir n (drop max_file_name_length (drop 32 bs))

-- The directory in the blocks of its file: `none` for NULL. A length that the blocks do not have is
-- a `memcpy` behind the buffer.
unfoldable pub dir_of : List ℕ → Option (Option (List DirEntry))
dir_of dir_buf =
    let f_sz : ℕ = from_le (take 4 dir_buf) in
    if ltb (length dir_buf) sizeof_file_header
    then none
    else if f_sz == 0
    then some none
    else if ltb (length dir_buf) (sizeof_file_header + f_sz)
    then none
    else some (some (decode_dir (f_sz / sizeof_dir_entry) (drop sizeof_file_header dir_buf)))

-- The buffer of dev_write_dir in `dir_blk_cnt` blocks.
pub dir_buf_of : ℕ → ℕ → List DirEntry → List ℕ
dir_buf_of lblk dir_blk_cnt ents =
    let dir_buf_len : ℕ = length ents * sizeof_dir_entry in
    to_le 4 dir_buf_len
    ++ (encode_dir ents ++ replicate (dir_blk_cnt * lblk - (sizeof_file_header + dir_buf_len)) 0)

-- The loop of dev_rm_from_dir: the last entry takes the place of the first one with the number.
pub replace_fid : List DirEntry → DirEntry → ℕ → Option (List DirEntry)
replace_fid [] last del_id = none
replace_fid (e ∷ es) last del_id =
    let rest = replace_fid es last del_id in
    if e.fid == del_id
    then some (last ∷ es)
    else elim rest [ none ↦ none | some es' ↦ some (e ∷ es') ]

-- The entries that dev_rm_from_dir writes back; `none` when the number is not found.
pub without_fid : List DirEntry → ℕ → Option (List DirEntry)
without_fid dirs del_id = elim (get_elem? dirs (length dirs - 1)) [
  | none ↦ none
  | some last ↦ elim (replace_fid dirs last del_id) [
    | none ↦ none
    | some dirs' ↦ some (take (length dirs - 1) dirs')
  ]
]

-- the same for a directory that may be NULL
abbrev pub remaining : Option (List DirEntry) → ℕ → Option (List DirEntry)
remaining none del_id = none
remaining (some ents) del_id = without_fid ents del_id

module _ (m : Maps) where
  -- The blocks from number `i` on, `left` of them. One that is not read is left as zeros.
  pub read_blocks : ℕ → ℕ → ℕ → ℕ → D m (List ℕ)
  read_blocks h seq_sz i zero = pure []
  read_blocks h seq_sz i (suc left) = do
    d ← get
    r ← read_from m i h seq_sz
    rest ← read_blocks h seq_sz (i + 1) left
    pure (elim r [ none ↦ replicate (lblk_sz d.vol) 0 | some b ↦ b ] ++ rest)

  -- dev_read_dir
  unfoldable pub read_dir : ℕ → D m (Option (List DirEntry))
  read_dir fid = do
    (h, seq_sz) ← get_file_seq m fid
    dir_buf ← read_blocks h seq_sz 0 seq_sz
    need (dir_of dir_buf)

  -- The loop of dev_write_dir from block `i` with `left` rounds to go: the last result.
  pub write_blocks : ℕ → ℕ → ℕ → ℕ → List ℕ → ℕ → D m ℕ
  write_blocks h seq_sz i zero buf res = pure res
  write_blocks h seq_sz i (suc left) buf res = do
    d ← get
    r ← write_to m i (take (lblk_sz d.vol) buf) h seq_sz
    write_blocks h seq_sz (i + 1) left (drop (lblk_sz d.vol) buf) r

  -- dev_write_dir. A negative length is a very large one in the test of the loop, which then runs
  -- behind the buffer.
  pub write_dir : ℕ → ℕ → List DirEntry → D m ℕ
  write_dir fuel fid ents = do
    d ← get
    let dir_blk_cnt =
        to_blk_cnt (length ents * sizeof_dir_entry + sizeof_file_header) (lblk_sz d.vol)
    let dir_buf = dir_buf_of (lblk_sz d.vol) dir_blk_cnt ents
    (h, old_sz) ← get_file_seq m fid
    seq_sz ←
        if ltb old_sz dir_blk_cnt
        then extend m fuel h old_sz (dir_blk_cnt - old_sz) fid
        else pure old_sz
    if is_neg seq_sz then (λ _. fault) else write_blocks h seq_sz 0 seq_sz dir_buf 0

  -- What dev_rm_from_dir does with the remaining entries: nothing when the number was not found.
  pub write_back : ℕ → ℕ → Option (List DirEntry) → D m ℕ
  write_back fuel fid none = pure minus_one
  write_back fuel fid (some ents) = do res ← write_dir fuel fid ents; pure 0

  -- dev_rm_from_dir
  pub rm_from_dir : ℕ → ℕ → ℕ → D m ℕ
  rm_from_dir fuel fid del_id = do dirs ← read_dir fid; write_back fuel fid (remaining dirs del_id)
