-- ===== src/Mount/Found.antt =====
-- dev_mount of a device that holds the regions of a volume.
use Prim.Native.Nat.{bit_xor}
use fcfs.Base.{
  ℕ, ◌+◌, ◌-◌, ◌*◌, ◌≤◌, ◌≡◌, refl, ap, ◌∙◌, some, List, arith, length, min, true, ◌==◌, le→ltb,
  ==_refl,
}
use native.Mathlib.Nat.{mul_comm}
use fcfs.Base.Monad.{ok}
use fcfs.Base.Words.{u32}
use fcfs.Structs.{block_size, sizeof_head, sizeof_table}
use fcfs.Volume.{Volume, lblk_sz}
use fcfs.Device.{bytes_at, at, fread}
use fcfs.Device.Bytes.{length-bytes_at}
use fcfs.Scsi.{DscInfo}
use fcfs.Persist.TableRegion.{table_pos}
use fcfs.Mount.{decode_head, decode_table, read_exact, read_head, read_table, mount}

-- The bytes from `p` on are read when they lie on the device.
read_exact-at :
    (u : Volume) (p n : ℕ) (bs : List ℕ)
    → p + n ≤ u.dev.size
    → bytes_at u.dev.byte p n ≡ bs
    → read_exact n (at u p) ≡ ok bs (at u (p + n))
unfolding read_exact fread
read_exact-at u p n bs inside e =
    let all : min n (u.dev.size - p) ≡ n = omega arith in
    rw (all, length-bytes_at, ==_refl) (ap (λ b. ok b (at u (p + n))) e)

-- What a mount needs to find on the device to give the state of `v`.
pub record OnDevice (v : Volume) (size : ℕ) (byte : ℕ → ℕ) (bitmap : List ℕ) : Type 0 where
  pub head_bytes : List ℕ
  pub head_read : v.ciph.decrypt (bytes_at byte 0 (lblk_sz v)) ≡ some head_bytes
  pub head_size : sizeof_head ≤ length head_bytes
  pub head_is : decode_head head_bytes ≡ v.fs_head
  pub head_sum : v.fs_head.hashsum ≡ bit_xor sizeof_head v.fs_head.ctime
  pub bitmap_read : bytes_at byte (lblk_sz v) (v.fs_head.bmp_len * lblk_sz v) ≡ bitmap
  pub table_bytes : List ℕ
  pub table_read :
      v.ciph.decrypt (bytes_at byte (table_pos v) (v.fs_head.tbl_len * lblk_sz v))
      ≡ some table_bytes
  pub table_size : sizeof_table ≤ length table_bytes
  pub table_is : decode_table table_bytes ≡ v.fs_table
  pub table_sum : v.fs_table.hashsum ≡ bit_xor sizeof_table v.fs_head.ctime
  pub inside : table_pos v + v.fs_head.tbl_len * lblk_sz v ≤ size

-- The state of `v` over the device and the cache of `u`, with the stream behind the file table.
abbrev pub mounted : Volume → Volume → List ℕ → Volume
mounted u v bitmap = record u {
  dev = record u.dev { pos = table_pos v + v.fs_head.tbl_len * lblk_sz v };
  fs_head = v.fs_head;
  fs_bitmap = bitmap;
  fs_table = v.fs_table;
}

module _ (v u : Volume) (bitmap : List ℕ) (d : OnDevice v u.dev.size u.dev.byte bitmap)
    (c : u.ciph ≡ v.ciph) where
  plain :
      (p n : ℕ) (bs : List ℕ)
      → v.ciph.decrypt (bytes_at u.dev.byte p n) ≡ some bs
      → u.ciph.decrypt (bytes_at u.dev.byte p n) ≡ some bs
  plain p n bs e = ap (λ x. x.decrypt (bytes_at u.dev.byte p n)) c ∙ e

  read_head-OnDevice : read_head (lblk_sz v) (at u 0) ≡ ok v.fs_head (at u (lblk_sz v))
  unfolding read_head
  read_head-OnDevice =
      let sum : ((decode_head d.head_bytes).hashsum
            == bit_xor sizeof_head (decode_head d.head_bytes).ctime)
          ≡ true =
        ap (λ h. h.hashsum == bit_xor sizeof_head h.ctime) d.head_is ∙ rw d.head_sum (==_refl _) in
      rw
        (
          read_exact-at u 0 (lblk_sz v) _ (omega (arith, d.inside)) refl,
          plain 0 (lblk_sz v) _ d.head_read,
          le→ltb _ _ d.head_size,
          sum,
          d.head_is,
        )
        (ap (λ p. ok v.fs_head (at u p)) {x = 0 + lblk_sz v} (omega arith))

  read_table-OnDevice :
      read_table (v.fs_head.tbl_len * lblk_sz v) v.fs_head (at u (table_pos v))
      ≡ ok v.fs_table (at u (table_pos v + v.fs_head.tbl_len * lblk_sz v))
  unfolding read_table
  read_table-OnDevice =
      let sum : ((decode_table d.table_bytes).hashsum == bit_xor sizeof_table v.fs_head.ctime)
          ≡ true =
        ap (λ t. t.hashsum == bit_xor sizeof_table v.fs_head.ctime) d.table_is
        ∙ rw d.table_sum (==_refl _) in
      rw
        (
          read_exact-at u (table_pos v) (v.fs_head.tbl_len * lblk_sz v) _ d.inside refl,
          plain (table_pos v) (v.fs_head.tbl_len * lblk_sz v) _ d.table_read,
          le→ltb _ _ d.table_size,
          sum,
          d.table_is,
        )
        refl

-- A mount of such a device returns 0 and gives that state.
pub mount-OnDevice :
    (v u : Volume) (bitmap : List ℕ) (d_info : DscInfo)
    → OnDevice v u.dev.size u.dev.byte bitmap
    → u.ciph ≡ v.ciph
    → u32 (d_info.sec_sz * block_size) ≡ lblk_sz v
    → mount d_info u ≡ ok 0 (mounted u v bitmap)
unfolding mount
mount-OnDevice v u bitmap d_info d c block =
    let u1 : Volume = record u { fs_head = v.fs_head } in
    let u2 : Volume = record u1 { fs_bitmap = bitmap } in
    let len : lblk_sz v * v.fs_head.bmp_len ≡ v.fs_head.bmp_len * lblk_sz v = mul_comm _ _ in
    let len2 : lblk_sz v * v.fs_head.tbl_len ≡ v.fs_head.tbl_len * lblk_sz v = mul_comm _ _ in
    rw
      (
        block,
        read_head-OnDevice v u bitmap d c,
        len,
        read_exact-at u1 (lblk_sz v) (v.fs_head.bmp_len * lblk_sz v) bitmap
            (omega (arith, d.inside)) d.bitmap_read,
        len2,
        read_table-OnDevice v u2 bitmap d c,
      )
      refl
