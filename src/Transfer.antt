-- ===== src/Transfer.antt =====
-- ops_read and ops_write (fcfs/src/ops/read.c and fcfs/src/ops/write.c): bytes of a file, which follow
-- the header of 4 bytes in its blocks.
pub mod Ranges
pub mod Contents
pub mod Loops
pub mod Open
pub mod Span
pub mod Reads
pub mod PastEnd
pub mod Writes
pub mod Roundtrip
use fcfs.Base.{
  ℕ, zero, suc, ◌+◌, ◌-◌, ◌*◌, ◌/◌, ◌%◌, ◌^◌, Option, none, some, List, [], ◌∷◌, ◌++◌, ltb, leb,
  ◌==◌, if◌then◌else◌, length, take, drop,
}
use fcfs.Base.Monad.{fault, ◌>>=◌, ◌>>◌, pure, get, need}
use fcfs.Base.Words.{is_neg, minus_one, u32, u64}
use fcfs.Structs.{sizeof_file_header}
use fcfs.Volume.{lblk_sz}
use fcfs.Utils.{Text, to_blk_cnt}
use fcfs.Cache.{Maps, D}
use fcfs.FileSeq.{get_file_seq, read_from, write_to, extend, file_size, set_file_size}
use fcfs.Ops.{Env, ops_open}

-- The bytes `size` from `off` on; `none` for a `memcpy` behind the buffer.
abbrev pub slice : ℕ → ℕ → List ℕ → Option (List ℕ)
slice off size buf = if ltb (length buf) (off + size) then none else some (take size (drop off buf))

-- `memcpy(buf + off, bytes, size)`
abbrev pub overlay : ℕ → List ℕ → List ℕ → Option (List ℕ)
overlay off bytes buf =
    if ltb (length buf) (off + length bytes)
    then none
    else some (take off buf ++ (bytes ++ drop (off + length bytes) buf))

-- an `int` as an `unsigned long`
abbrev pub widen : ℕ → ℕ
widen n = if is_neg n then n + (2 ^ 64 - 2 ^ 32) else n

-- The number of the block that a byte of a file lies in, and the bytes of the block in front of it.
abbrev pub first_block : ℕ → ℕ → ℕ
first_block lblk offset = u32 ((offset + sizeof_file_header) / lblk)

abbrev pub block_off : ℕ → ℕ → ℕ
block_off lblk offset = (offset + sizeof_file_header) % lblk

module _ (m : Maps) where
  -- The first loop of both: the blocks from number `blk_num` on; `none` when one is not read.
  pub fetch : ℕ → ℕ → ℕ → ℕ → D m (Option (List ℕ))
  fetch h seq_sz blk_num zero = pure (some [])
  fetch h seq_sz blk_num (suc left) = do
    r ← read_from m blk_num h seq_sz
    elim r [
      | none ↦ pure none
      | some b ↦ (do
        rest ← fetch h seq_sz (blk_num + 1) left
        elim rest [ none ↦ pure none | some bs ↦ pure (some (b ++ bs)) ])
    ]

  -- The second loop of ops_write: -1 when a block is not written.
  pub store : ℕ → ℕ → ℕ → ℕ → List ℕ → D m ℕ
  store h seq_sz blk_num zero buf = pure 0
  store h seq_sz blk_num (suc left) buf = do
    d ← get
    r ← write_to m blk_num (take (lblk_sz d.vol) buf) h seq_sz
    if is_neg r
        then pure minus_one
        else store h seq_sz (blk_num + 1) left (drop (lblk_sz d.vol) buf)

  -- What ops_read does with a length that has been cut to the file. A count that is not positive is
  -- no length of an array.
  pub read_bytes : ℕ → ℕ → ℕ → D m (ℕ × List ℕ)
  read_bytes fid size offset = do
    d ← get
    let lblk = lblk_sz d.vol
    let blk_off = block_off lblk offset
    let span = u32 (blk_off + size)
    (h, seq_sz) ← get_file_seq m fid
    if is_neg span then (λ _. fault) else (do
      tmp ← fetch h seq_sz (first_block lblk offset) (to_blk_cnt span lblk)
      elim tmp [
        | none ↦ pure (minus_one, [])
        | some bs ↦ (do buf ← need (slice blk_off size bs); pure (u32 size, buf))
      ])

  -- ops_read: the result, and the bytes that it copies. The sum of offset and length is compared
  -- with the length of the file as an `unsigned long`, and so is the shorter length.
  pub ops_read : ℕ → ℕ → ℕ → D m (ℕ × List ℕ)
  ops_read fid size offset = do
    fsize ← file_size m fid
    let rest = u64 (widen fsize + 2 ^ 64 - offset)
    if ltb (widen fsize) (u64 (offset + size))
        then (if rest == 0 then pure (0, []) else read_bytes fid rest offset)
        else read_bytes fid size offset

  -- ops_write for a file whose number `fi->fh` is known, of fewer than 2^31 bytes.
  pub write_file : ℕ → ℕ → List ℕ → ℕ → D m ℕ
  write_file fuel fid bytes offset = do
    d ← get
    let lblk = lblk_sz d.vol
    let size = length bytes
    let blk_num = first_block lblk offset
    let blk_off = block_off lblk offset
    let sz_cnt = to_blk_cnt (blk_off + size) lblk
    (h, old_sz) ← get_file_seq m fid
    seq_sz ←
        if ltb old_sz (blk_num + sz_cnt)
        then extend m fuel h old_sz (blk_num + sz_cnt - old_sz) fid
        else pure old_sz
    if is_neg seq_sz then pure minus_one else (do
      tmp ← fetch h seq_sz blk_num sz_cnt
      elim tmp [
        | none ↦ pure minus_one
        | some bs ↦ (do
          buf ← need (overlay blk_off bytes bs)
          res ← store h seq_sz blk_num sz_cnt buf
          if is_neg res then pure minus_one else (do
            sz ← file_size m fid
            set ←
                set_file_size m fid
                  (if ltb (widen sz) (offset + size) then u32 (offset + size) else sz)
            pure (u32 size)))
      ])

  -- ops_write: a file with number 0 is opened again.
  pub ops_write : Env → ℕ → Text → ℕ → List ℕ → ℕ → D m ℕ
  ops_write env fuel path fh bytes offset = do
    fid ← if fh == 0 then ops_open m env fuel path else pure fh
    write_file fuel fid bytes offset
