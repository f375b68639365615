-- ===== src/Fmt/Mounted.antt =====
-- The mount of a drive that the formatter has written.
use Prim.Native.Nat.{bit_xor}
use fcfs.Base.{ℕ, ◌+◌, ◌*◌, ◌^◌, ◌≤◌, ◌<◌, ◌≡◌, refl, List, arith, length, replicate}
use native.Mathlib.Nat.{mul_comm}
use fcfs.Base.Monad.{ok}
use fcfs.Base.Words.{u32}
use fcfs.Structs.{Head, label_length, block_size, sizeof_head}
use fcfs.Volume.{Volume}
use fcfs.Device.{at}
use fcfs.Scsi.{DscInfo}
use fcfs.Persist.Regions.{mul_mono}
use fcfs.Mount.{mount}
use fcfs.Mount.Found.{OnDevice, mounted, mount-OnDevice}
use fcfs.Fmt.{format_head, format}
use fcfs.Fmt.Codec.{root_only}
use fcfs.Fmt.Layout.{IsLayout, IsDriveCipher, Formatted}
use fcfs.Fmt.Image.{write_regions-Formatted}
use fcfs.Fmt.Fits.{IsWholeDrive, format_head-IsLayout}

-- The state of a new file system over the session of `u`.
abbrev pub fresh : Volume → Head → Volume
fresh u h = record u { fs_head = h; fs_table = root_only h }

-- the bytes of the bitmap of a new file system
abbrev pub fresh_bitmap : Head → List ℕ
fresh_bitmap h = replicate (h.bmp_len * (h.blk_sz * h.phy_blk_sz)) 0

Formatted-OnDevice :
    (h : Head) (v w u : Volume)
    → IsLayout h v.dev.size
    → Formatted h v w
    → h.hashsum ≡ bit_xor sizeof_head h.ctime
    → u.ciph ≡ v.ciph
    → OnDevice (fresh u h) w.dev.size w.dev.byte (fresh_bitmap h)
Formatted-OnDevice h v w u is on sum same =
    let c : h.phy_blk_sz * h.blk_sz ≡ h.blk_sz * h.phy_blk_sz = mul_comm _ _ in
    record {
      head_bytes = on.head_bytes;
      head_read = rw (same, c) on.head_read;
      head_size = on.head_size;
      head_is = on.head_is;
      head_sum = sum;
      bitmap_read = rw c on.bitmap_read;
      table_bytes = on.table_bytes;
      table_read = rw (same, c) on.table_read;
      table_size = on.table_size;
      table_is = on.table_is;
      table_sum = refl;
      inside =
          rw (c, on.same_size)
            (omega (
              arith,
              is.inside,
              mul_mono (h.blk_sz * h.phy_blk_sz) (1 + h.bmp_len + h.tbl_len) h.dta_beg is.order,
            ));
    }

format_head_sum :
    (s n now : ℕ) → let h = format_head s n now in h.hashsum ≡ bit_xor sizeof_head h.ctime
unfolding format_head
format_head_sum s n now = refl

format_head_block :
    (s n now : ℕ)
    → s < 2 ^ 16
    → let h = format_head s n now in u32 (s * block_size) ≡ h.phy_blk_sz * h.blk_sz
unfolding format_head
format_head_block s n now small = omega arith

-- The formatter ends, and the drive holds the regions of the head that it computes.
pub format-Formatted :
    (mem stack : ℕ → ℕ) (info : DscInfo) (now : ℕ) (v : Volume)
    → IsWholeDrive info.sec_sz info.sec_cnt v.dev.size
    → now < 2 ^ 64
    → IsDriveCipher v (format_head info.sec_sz info.sec_cnt now)
    → length info.product ≤ label_length
    → let h = format_head info.sec_sz info.sec_cnt now in
      (w : Volume) × (format mem stack info now v ≡ ok tt w) × Formatted h (at v 0) w
unfolding format
format-Formatted mem stack info now v d time cipher short =
    write_regions-Formatted mem stack info.product (format_head info.sec_sz info.sec_cnt now)
      (at v 0) refl (format_head-IsLayout info.sec_sz info.sec_cnt now v.dev.size d time)
      (record { block = cipher.block; table = cipher.table; cluster = cipher.cluster }) short

-- A drive with the regions of the computed head is mounted as a new file system.
pub mount-Formatted :
    (info : DscInfo) (now : ℕ) (v w u : Volume)
    → IsWholeDrive info.sec_sz info.sec_cnt v.dev.size
    → now < 2 ^ 64
    → Formatted (format_head info.sec_sz info.sec_cnt now) (at v 0) w
    → u.ciph ≡ v.ciph
    → let h = format_head info.sec_sz info.sec_cnt now in
      mount info (record u { dev = w.dev })
      ≡ ok 0 (mounted (record u { dev = w.dev }) (fresh u h) (fresh_bitmap h))
mount-Formatted info now v w u d time on same =
    let h : Head = format_head info.sec_sz info.sec_cnt now in
    let is : IsLayout h v.dev.size =
      format_head-IsLayout info.sec_sz info.sec_cnt now v.dev.size d time in
    mount-OnDevice (fresh u h) (record u { dev = w.dev }) (fresh_bitmap h) info
      (Formatted-OnDevice h (at v 0) w u is on (format_head_sum info.sec_sz info.sec_cnt now) same)
      refl (format_head_block info.sec_sz info.sec_cnt now d.geometry.sector_high)

-- For a drive whose sectors and count the formatter's fields hold, with blocks that hold the head
-- and room for a cluster, a time of 64 bits, a product name not longer than the label, and a cipher
-- that undoes itself on a block, on the file table and on the data of a cluster: the formatter
-- ends, and a mount of the drive with the same cipher returns 0 and finds the head that was
-- computed, a clear bitmap, and a file table with the root directory alone, whatever the memory and
-- the drive held before.
pub format-mount :
    (mem stack : ℕ → ℕ) (info : DscInfo) (now : ℕ) (v u : Volume)
    → IsWholeDrive info.sec_sz info.sec_cnt v.dev.size
    → now < 2 ^ 64
    → IsDriveCipher v (format_head info.sec_sz info.sec_cnt now)
    → length info.product ≤ label_length
    → u.ciph ≡ v.ciph
    → let h = format_head info.sec_sz info.sec_cnt now in
      (w : Volume) × (format mem stack info now v ≡ ok tt w)
      × (mount info (record u { dev = w.dev })
          ≡ ok 0 (mounted (record u { dev = w.dev }) (fresh u h) (fresh_bitmap h)))
format-mount mem stack info now v u d time cipher short same =
    let (w, runs, on) = format-Formatted mem stack info now v d time cipher short in
    (w, runs, mount-Formatted info now v w u d time on same)
