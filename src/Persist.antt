-- ===== src/Persist.antt =====
-- fcfs/src/dev/unmount.c: the bitmap and the file table, written back to their regions. The file
-- table is laid out as `fcfs_table_t`; the padding bytes of the structure are zeros.
pub mod Regions
pub mod TableRegion
use fcfs.Base.{ℕ, ◌+◌, ◌*◌, ◌/◌, ◌-◌, List, [], ◌∷◌, ◌++◌, ◌==◌, if◌then◌else◌, length, replicate}
use fcfs.Base.Bytes.{to_le}
use fcfs.Base.Monad.{◌>>=◌, ◌>>◌, pure, get, need, modify}
use fcfs.Base.Words.{minus_one}
use fcfs.Structs.{Table, TableEntry, sizeof_table_entry}
use fcfs.Volume.{Volume, M, lblk_sz}
use fcfs.Device.{need_crypt, at, crypt, fwrite, padded}

-- `fseek(args->dev, p, SEEK_SET)` for a position that an `int` holds
abbrev pub seek_set : ℕ → M (Unit {0})
seek_set p = modify (λ v. at v p)

-- dev_write_bitmap. A short write is not reported.
pub write_bitmap : M ℕ
write_bitmap = do
  v ← get
  blk_buf ← need (padded (v.fs_head.bmp_len * lblk_sz v) v.fs_bitmap (v.fs_head.clu_cnt / 8))
  seek_set (lblk_sz v)
  res ← fwrite blk_buf
  pure 0

abbrev pub encode_clrs : List ℕ → List ℕ
encode_clrs [] = []
encode_clrs (c ∷ cs) = to_le 2 c ++ encode_clrs cs

abbrev pub encode_entries : List TableEntry → List ℕ
encode_entries [] = []
encode_entries (e ∷ es) = e.lnk_cnt ∷ 0 ∷ (encode_clrs e.clrs ++ encode_entries es)

-- sizeof(fcfs_table_t) for the number of entries at hand, which is FCFS_TABLE_LEN in the driver
abbrev pub sizeof_entries : ℕ → ℕ
sizeof_entries n = (8 + sizeof_table_entry * n + 7) / 8 * 8

-- the bytes of a `fcfs_table_t`
unfoldable pub encode_table : Table → List ℕ
encode_table t =
    to_le 8 t.hashsum
    ++ (encode_entries t.entrs
        ++ replicate (sizeof_entries (length t.entrs) - (8 + sizeof_table_entry * length t.entrs))
            0)

-- dev_write_table
pub write_table : M ℕ
write_table = do
  v ← get
  let lblk = lblk_sz v
  let tbl_blk_len = v.fs_head.tbl_len * lblk
  blk_buf ←
      need (padded tbl_blk_len (encode_table v.fs_table) (sizeof_entries (length v.fs_table.entrs)))
  seek_set (lblk + v.fs_head.bmp_len * lblk)
  coded ← crypt (λ c. c.encrypt) need_crypt blk_buf
  res ← fwrite coded
  if res == tbl_blk_len then pure 0 else pure minus_one
