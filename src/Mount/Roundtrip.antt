-- ===== src/Mount/Roundtrip.antt =====
-- dev_write_bitmap and dev_write_table followed by dev_mount.
use Prim.Native.Nat.{bit_xor}
use fcfs.Base.{
  ℕ, ◌-◌, ◌*◌, ◌/◌, ◌%◌, ◌^◌, ◌≤◌, ◌<◌, ◌≡◌, refl, ap, ◌∙◌, inl, some, List, ◌++◌, arith, All,
  length, take, replicate, get_or, zero, suc, [], ◌∷◌, ltb, if◌then◌else◌, false, take-all,
}
use fcfs.Base.Monad.{ok}
use fcfs.Base.Words.{u32}
use fcfs.Structs.{block_size, table_len, sizeof_head, sizeof_table}
use fcfs.Volume.{Volume, IsCipher, lblk_sz}
use fcfs.Device.{bytes_at, stored}
use fcfs.Device.Bytes.{bytes_at-written, bytes_at-write_outside}
use fcfs.Layout.{IsVolume, IsVolume-kept}
use fcfs.Scsi.{DscInfo}
use fcfs.Bitmap.Bits.{mask_bit-zero}
use fcfs.Bitmap.Update.{used}
use fcfs.Persist.{encode_table, sizeof_entries, write_bitmap, write_table}
use fcfs.Persist.Regions.{bitmap_buf, length-bitmap_buf, write_bitmap-stored}
use fcfs.Persist.TableRegion.{
  IsTable, length-encode_table, length-table_buf, table_pos, table_buf, table_before_data,
  write_table-stored,
}
use fcfs.Mount.{decode_head, decode_table, mount}
use fcfs.Mount.Codec.{IsEntry, decode-encode_table}
use fcfs.Mount.Found.{OnDevice, mounted, mount-OnDevice}

get_or-padded :
    (xs : List ℕ) (n m i : ℕ)
    → n ≤ length xs
    → get_or (take n xs ++ replicate m 0) i 0 ≡ (if ltb i n then get_or xs i 0 else 0)
get_or-padded xs zero zero i h = ground arith
get_or-padded xs zero (suc m) zero h = ground arith
get_or-padded xs zero (suc m) (suc i) h = ground (arith, get_or-padded xs zero m i)
get_or-padded [] (suc n) m i h = absurd (omega arith)
get_or-padded (x ∷ xs) (suc n) m zero h = ground arith
get_or-padded (x ∷ xs) (suc n) m (suc i) h = ground (arith, get_or-padded xs n m i)

-- The flag of a cluster in the bytes that dev_write_bitmap sends.
used-bitmap_buf :
    (v : Volume) (c : ℕ)
    → IsVolume v
    → used (bitmap_buf v) c
      ≡ (if ltb c (8 * (v.fs_head.clu_cnt / 8)) then used v.fs_bitmap c else false)
unfolding used
used-bitmap_buf v c is =
    let n : ℕ = v.fs_head.clu_cnt / 8 in
    let same : ltb (c / 8) n ≡ ltb c (8 * n) = ground arith in
    rw
      (
        get_or-padded v.fs_bitmap n (v.fs_head.bmp_len * lblk_sz v - n) (c / 8)
            (omega (arith, is.flags)),
        same,
      )
      (ground (arith, mask_bit-zero (c % 8)))

-- A state that a mount can find again: its head stands on the device, and its table has the shape
-- and the checksum that a mount looks for.
pub record IsMountable (v : Volume) : Type 0 where
  pub head_bytes : List ℕ
  pub head_read : v.ciph.decrypt (bytes_at v.dev.byte 0 (lblk_sz v)) ≡ some head_bytes
  pub head_size : sizeof_head ≤ length head_bytes
  pub head_is : decode_head head_bytes ≡ v.fs_head
  pub head_sum : v.fs_head.hashsum ≡ bit_xor sizeof_head v.fs_head.ctime
  pub table : IsTable v
  pub table_sum : v.fs_table.hashsum ≡ bit_xor sizeof_table v.fs_head.ctime
  pub sum_small : v.fs_table.hashsum < 2 ^ 64
  pub count : length v.fs_table.entrs ≡ table_len
  pub entries : All IsEntry v.fs_table.entrs

-- The region of the file table decodes to the table.
decode-table_buf : (v : Volume) → IsMountable v → decode_table (table_buf v) ≡ v.fs_table
decode-table_buf v m =
    let size : ℕ = sizeof_entries (length v.fs_table.entrs) in
    let zeros : List ℕ = replicate (v.fs_head.tbl_len * lblk_sz v - size) 0 in
    ap (λ bs. decode_table (bs ++ zeros))
      (take-all size (encode_table v.fs_table) (omega (arith, length-encode_table v m.table)))
    ∙ decode-encode_table v.fs_table zeros m.sum_small m.count m.entries

-- dev_write_bitmap and dev_write_table of a mountable volume in order return 0, and a dev_mount of
-- the device from any state returns 0 and finds the head and the file table, and the flag of each
-- cluster before the last incomplete byte of the bitmap; the flags from there on are clear.
pub mount-write_table :
    (v u : Volume) (d_info : DscInfo)
    → IsVolume v
    → IsMountable v
    → IsCipher (v.fs_head.tbl_len * lblk_sz v) v.ciph
    → u32 (d_info.sec_sz * block_size) ≡ lblk_sz v
    → (x w y : Volume) × (write_bitmap v ≡ ok 0 x)
      × (write_table x ≡ ok 0 w)
      × (mount d_info (record u { dev = w.dev; ciph = w.ciph }) ≡ ok 0 y)
      × (y.fs_head ≡ v.fs_head)
      × (y.fs_table ≡ v.fs_table)
      × ((c : ℕ)
          → used y.fs_bitmap c
            ≡ (if ltb c (8 * (v.fs_head.clu_cnt / 8)) then used v.fs_bitmap c else false))
mount-write_table v u d_info is m cipher block =
    let x : Volume = stored v (lblk_sz v) (bitmap_buf v) in
    let long = length-bitmap_buf v is in
    let table : IsTable x = record {
      clusters = m.table.clusters;
      fits = m.table.fits;
      before_data = m.table.before_data;
    } in
    let (coded, enc, size, wrote) =
      write_table-stored x (IsVolume-kept v x refl refl refl is.flag_bytes is) table cipher in
    let w : Volume = stored x (table_pos x) coded in
    let y : Volume = mounted (record u { dev = w.dev; ciph = w.ciph }) v (bitmap_buf v) in
    let d : OnDevice v w.dev.size w.dev.byte (bitmap_buf v) = record {
      head_bytes = m.head_bytes;
      head_read =
          ap v.ciph.decrypt (
            bytes_at-write_outside x.dev.byte (table_pos v) coded 0 (lblk_sz v) (inl (omega arith))
            ∙ bytes_at-write_outside v.dev.byte (lblk_sz v) (bitmap_buf v) 0 (lblk_sz v)
                (inl (omega arith)))
          ∙ m.head_read;
      head_size = m.head_size;
      head_is = m.head_is;
      head_sum = m.head_sum;
      bitmap_read =
          bytes_at-write_outside x.dev.byte (table_pos v) coded (lblk_sz v)
            (v.fs_head.bmp_len * lblk_sz v) (inl (omega arith))
          ∙ bytes_at-written v.dev.byte (lblk_sz v) (v.fs_head.bmp_len * lblk_sz v) (bitmap_buf v)
              long;
      table_bytes = table_buf v;
      table_read =
          ap v.ciph.decrypt
            (bytes_at-written x.dev.byte (table_pos v) (v.fs_head.tbl_len * lblk_sz v) coded size)
          ∙ cipher.undone (table_buf v) coded (length-table_buf v m.table) enc;
      table_size = omega (arith, length-table_buf v m.table, m.table.fits, m.count);
      table_is = decode-table_buf v m;
      table_sum = m.table_sum;
      inside = omega (arith, table_before_data v m.table, is.on_device);
    } in
    (
      x,
      w,
      y,
      write_bitmap-stored v is,
      wrote,
      mount-OnDevice v (record u { dev = w.dev; ciph = w.ciph }) (bitmap_buf v) d_info d refl block,
      refl,
      refl,
      λ c. used-bitmap_buf v c is,
    )
