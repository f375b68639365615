-- ===== src/Fmt.antt =====
-- fmtr/fcfsfmt.c: the geometry that the formatter computes for a drive, and the regions that it
-- writes. Memory that is not set before it is written to the drive is an argument.
pub mod Geometry
pub mod Codec
pub mod Layout
pub mod Parts
pub mod Writes
pub mod Image
pub mod Fits
pub mod Mounted
pub mod Fresh
pub mod Start
pub mod Main
pub mod Root
pub mod Empty
pub mod Listing
use Prim.Native.Nat.{bit_xor}
use fcfs.Base.{
  ℕ, zero, suc, ◌+◌, ◌-◌, ◌*◌, ◌/◌, ◌%◌, ◌^◌, Option, none, some, List, [], ◌∷◌, ◌++◌, ltb, leb,
  ◌==◌, if◌then◌else◌, ◌||◌, length, replicate,
}
use fcfs.Base.Bytes.{to_le}
use fcfs.Base.Monad.{died, ◌>>=◌, ◌>>◌, pure, get, need, modify}
use fcfs.Base.Words.{u16, u32, u64, is_neg}
use fcfs.Structs.{
  Head, BlockListEntry, label_length, sizeof_block_list, block_size, bloks_per_cluster, table_len,
  sizeof_table, sizeof_head,
}
use fcfs.Volume.{M}
use fcfs.Device.{need_crypt, at, bytes_at, crypt, fwrite, padded}
use fcfs.Ctable.{encode}
use fcfs.Scsi.{DscInfo}

-- a - b on `unsigned long`
abbrev pub sub64 : ℕ → ℕ → ℕ
sub64 a b = (a + 2 ^ 64 - b % 2 ^ 64) % 2 ^ 64

-- (unsigned)ceil(a / (double)b)
abbrev pub ceil_div : ℕ → ℕ → ℕ
ceil_div a b = (a + b - 1) / b

-- `(unsigned short)ceil(sizeof(struct fcfs_table) / (blk_sz * phy_blk_sz)) + 1`, where the division
-- of integers has rounded down before `ceil`
unfoldable pub table_blocks : ℕ → ℕ
table_blocks lblk = u16 (u16 (sizeof_table / lblk) + 1)

-- The head for a drive of `sec_cnt` sectors of `sec_sz` bytes, when both calls of `time` give `now`.
unfoldable pub format_head : ℕ → ℕ → ℕ → Head
unfolding table_blocks
format_head sec_sz sec_cnt now =
    let phy_blk_sz : ℕ = u16 sec_sz in
    let lblk : ℕ = block_size * phy_blk_sz in
    let blk_cnt : ℕ = sec_cnt / block_size in
    let tbl_len : ℕ = table_blocks lblk in
    let first_clu_cnt : ℕ = sub64 (sub64 blk_cnt tbl_len) 1 / bloks_per_cluster in
    let bmp_len : ℕ = u32 (ceil_div (first_clu_cnt / 8) lblk) in
    record {
      fsid = 1337;
      ctime = now;
      atime = now;
      tbl_cnt = table_len;
      tbl_len = tbl_len;
      bmp_len = bmp_len;
      clu_sz = bloks_per_cluster;
      clu_cnt = sub64 (sub64 (sub64 blk_cnt tbl_len) bmp_len) 1 / bloks_per_cluster;
      blk_sz = block_size;
      blk_cnt = blk_cnt;
      phy_blk_sz = phy_blk_sz;
      phy_blk_cnt = sec_cnt;
      dta_beg = u32 (2 + bmp_len + tbl_len);
      hashsum = bit_xor sizeof_head now;
    }

-- The bytes of a `fcfs_head_t` behind the label, with the padding of `mem`.
pub encode_fields : (ℕ → ℕ) → Head → List ℕ
encode_fields mem h =
    bytes_at mem 259 5
    ++ (to_le 8 h.ctime
        ++ (to_le 8 h.atime
            ++ (to_le 4 h.tbl_cnt
                ++ (to_le 2 h.tbl_len
                    ++ (bytes_at mem 286 2
                        ++ (to_le 4 h.bmp_len
                            ++ (to_le 2 h.clu_sz
                                ++ (bytes_at mem 294 2
                                    ++ (to_le 8 h.clu_cnt
                                        ++ (to_le 2 h.blk_sz
                                            ++ (bytes_at mem 306 6
                                                ++ (to_le 8 h.blk_cnt
                                                    ++ (to_le 2 h.phy_blk_sz
                                                        ++ (bytes_at mem 322 6
                                                            ++ (to_le 8 h.phy_blk_cnt
                                                            ++ (to_le 4 h.dta_beg
                                                            ++ (bytes_at mem 340 4
                                                            ++ to_le 8 h.hashsum)))))))))))))))))

-- A `fcfs_head_t` in memory.
pub encode_head : (ℕ → ℕ) → List ℕ → Head → List ℕ
encode_head mem label h = to_le 4 h.fsid ++ (label ++ encode_fields mem h)

-- `memcpy(fs_head->label, info->product, info->prod_len)`: a longer product runs into the fields
-- behind the label.
pub label_of : (ℕ → ℕ) → List ℕ → Option (List ℕ)
label_of mem product =
    if ltb label_length (length product)
    then none
    else some (product ++ bytes_at mem (4 + length product) (label_length - length product))

-- `fwrite`, and `exit(-1)` when fewer bytes were written
pub write_exact : List ℕ → M (Unit {0})
write_exact bs = do res ← fwrite bs; if res == length bs then pure tt else λ _. died

-- `calloc(1, n)`: a negative `int` is a length that no memory has, and the null pointer is written.
abbrev pub zeros : ℕ → Option (List ℕ)
zeros n = if is_neg n then none else some (replicate n 0)

-- The file table of the formatter in `n` bytes: the checksum, and a link of the root directory to
-- cluster 0.
pub root_table : Head → ℕ → Option (List ℕ)
root_table h n =
    if is_neg n || ltb n 12
    then none
    else some (to_le 8 (bit_xor sizeof_table h.ctime) ++ (1 ∷ replicate (n - 9) 0))

abbrev pub numbered_free : ℕ → ℕ → List BlockListEntry
numbered_free i zero = []
numbered_free i (suc n) = record { fid = 0; num = i } ∷ numbered_free (i + 1) n

-- The table of owners of cluster 0 in a block of `n` bytes on the stack.
pub root_owners : (ℕ → ℕ) → Head → ℕ → Option (List ℕ)
root_owners stack h n =
    if ltb n sizeof_block_list
    then none
    else some (
        encode (record { hashsum = h.ctime; entrs = numbered_free 0 (bloks_per_cluster - 1) })
        ++ bytes_at stack sizeof_block_list (n - sizeof_block_list))

-- What the formatter writes for a head: head, bitmap, file table, and cluster 0, whose blocks of data
-- are encrypted in one call.
pub write_regions : (ℕ → ℕ) → (ℕ → ℕ) → List ℕ → Head → M (Unit {0})
write_regions mem stack product h = do
  let dta_blk = h.blk_sz * h.phy_blk_sz
  label ← need (label_of mem product)
  head_block ← need (padded dta_blk (encode_head mem label h) sizeof_head)
  coded_head ← crypt (λ c. c.encrypt) need_crypt head_block
  write_exact coded_head
  bitmap_buffer ← need (zeros (u32 (h.bmp_len * dta_blk)))
  write_exact bitmap_buffer
  fs_table ← need (root_table h (h.tbl_len * dta_blk))
  coded_table ← crypt (λ c. c.encrypt) need_crypt fs_table
  write_exact coded_table
  first_table ← need (root_owners stack h dta_blk)
  modify (λ v. at v (u32 (h.dta_beg * dta_blk)))
  write_exact first_table
  coded_clu ← crypt (λ c. c.encrypt) need_crypt (replicate (dta_blk * (bloks_per_cluster - 1)) 0)
  write_exact coded_clu

-- main of the formatter for a drive that has answered, at time `now`. The volume holds nothing but the
-- device and the cipher.
pub format : (ℕ → ℕ) → (ℕ → ℕ) → DscInfo → ℕ → M (Unit {0})
format mem stack info now = do
  modify (λ v. at v 0)
  write_regions mem stack info.product (format_head info.sec_sz info.sec_cnt now)
