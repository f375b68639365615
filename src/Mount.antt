-- ===== src/Mount.antt =====
-- fcfs/src/dev/mount.c: head, bitmap and file table, read one after the other from the start of the
-- device. A short read and a wrong checksum end the program.
pub mod Codec
pub mod Found
pub mod Roundtrip
use Prim.Native.Nat.{bit_xor}
use fcfs.Base.{
  ℕ, zero, suc, ◌+◌, ◌*◌, Option, none, some, List, [], ◌∷◌, ltb, ◌==◌, if◌then◌else◌, length, take,
  drop, get_or,
}
use fcfs.Base.Bytes.{from_le}
use fcfs.Base.Monad.{died, ◌>>=◌, ◌>>◌, pure, get, need, modify}
use fcfs.Base.Words.{u32}
use fcfs.Structs.{
  Head, Table, TableEntry, block_size, cluster_per_file, table_len, sizeof_head, sizeof_table,
  label_length,
}
use fcfs.Volume.{Volume, M, lblk_sz}
use fcfs.Device.{need_crypt, at, crypt, fread}
use fcfs.Scsi.{DscInfo}

-- the next `k` bytes as a number
abbrev pub field : ℕ → List ℕ → ℕ
field k bs = from_le (take k bs)

-- The fields of a `fcfs_head_t` behind the magic number and the label, with the padding passed over.
unfoldable pub head_from : ℕ → List ℕ → Head
head_from fsid b1 =
    let b2 : List ℕ = drop 8 b1 in
    let b3 : List ℕ = drop 8 b2 in
    let b4 : List ℕ = drop 4 b3 in
    let b5 : List ℕ = drop 4 b4 in
    let b6 : List ℕ = drop 4 b5 in
    let b7 : List ℕ = drop 4 b6 in
    let b8 : List ℕ = drop 8 b7 in
    let b9 : List ℕ = drop 8 b8 in
    let b10 : List ℕ = drop 8 b9 in
    let b11 : List ℕ = drop 8 b10 in
    let b12 : List ℕ = drop 8 b11 in
    record {
      fsid = fsid;
      ctime = field 8 b1;
      atime = field 8 b2;
      tbl_cnt = field 4 b3;
      tbl_len = field 2 b4;
      bmp_len = field 4 b5;
      clu_sz = field 2 b6;
      clu_cnt = field 8 b7;
      blk_sz = field 2 b8;
      blk_cnt = field 8 b9;
      phy_blk_sz = field 2 b10;
      phy_blk_cnt = field 8 b11;
      dta_beg = field 4 b12;
      hashsum = field 8 (drop 8 b12);
    }

-- A `fcfs_head_t`: the label and the padding behind it are not read.
unfoldable pub decode_head : List ℕ → Head
unfolding head_from
decode_head bs = head_from (field 4 bs) (drop 5 (drop label_length (drop 4 bs)))

abbrev pub decode_clrs : ℕ → List ℕ → List ℕ
decode_clrs zero bs = []
decode_clrs (suc n) bs = field 2 bs ∷ decode_clrs n (drop 2 bs)

-- The first `n` entries of a file table.
unfoldable pub decode_entries : ℕ → List ℕ → List TableEntry
decode_entries zero bs = []
decode_entries (suc n) bs =
    record { lnk_cnt = get_or bs 0 0; clrs = decode_clrs cluster_per_file (drop 2 bs) }
    ∷ decode_entries n (drop 32 (drop 2 bs))

-- a `fcfs_table_t`
unfoldable pub decode_table : List ℕ → Table
decode_table bs = record { hashsum = field 8 bs; entrs = decode_entries table_len (drop 8 bs) }

-- `fread` of `n` bytes, with `exit(-1)` on a short one
pub read_exact : ℕ → M (List ℕ)
read_exact n = do bs ← fread n; if length bs == n then pure bs else λ _. died

-- `memcpy` of a structure of `n` bytes out of a buffer
abbrev pub struct_at : ℕ → List ℕ → Option (List ℕ)
struct_at n bs = if ltb (length bs) n then none else some bs

-- read_head
pub read_head : ℕ → M Head
read_head l_blk_sz = do
  coded ← read_exact l_blk_sz
  head_buf ← crypt (λ c. c.decrypt) need_crypt coded
  bs ← need (struct_at sizeof_head head_buf)
  let head = decode_head bs
  if head.hashsum == bit_xor sizeof_head head.ctime then pure head else λ _. died

-- read_table
pub read_table : ℕ → Head → M Table
read_table bytes head = do
  coded ← read_exact bytes
  table_buf ← crypt (λ c. c.decrypt) need_crypt coded
  bs ← need (struct_at sizeof_table table_buf)
  let table = decode_table bs
  if table.hashsum == bit_xor sizeof_table head.ctime then pure table else λ _. died

-- dev_mount for a drive that has answered; `args` holds nothing but the device and the cipher.
pub mount : DscInfo → M ℕ
mount d_info = do
  modify (λ v. at v 0)
  head ← read_head (u32 (d_info.sec_sz * block_size))
  modify (λ v. record v { fs_head = head })
  bitmap ← read_exact (head.phy_blk_sz * head.blk_sz * head.bmp_len)
  modify (λ v. record v { fs_bitmap = bitmap })
  table ← read_table (head.phy_blk_sz * head.blk_sz * head.tbl_len) head
  modify (λ v. record v { fs_table = table })
  pure 0
