-- ===== src/Layout.antt =====
-- A volume whose regions lie apart and on the device: what the driver relies on after dev_mount.
use fcfs.Base.{ℕ, ◌+◌, ◌*◌, ◌/◌, ◌^◌, ◌≤◌, ◌<◌, ◌≡◌, arith, length}
use fcfs.Base.Bytes.{IsBytes}
use fcfs.Structs.{sizeof_block_list}
use fcfs.Volume.{Volume, lblk_sz}
use fcfs.Device.Blocks.{InVolume}

-- head, bitmap, table, then the clusters
pub record IsVolume (v : Volume) : Type 0 where
  pub fits : sizeof_block_list ≤ lblk_sz v
  pub flags : v.fs_head.clu_cnt ≤ 8 * length v.fs_bitmap
  pub flag_bytes : IsBytes v.fs_bitmap
  pub flag_region : v.fs_head.clu_cnt / 8 ≤ v.fs_head.bmp_len * lblk_sz v
  pub before_data : v.fs_head.bmp_len + 1 ≤ v.fs_head.dta_beg
  pub on_device : v.fs_head.dta_beg * lblk_sz v + 8 * lblk_sz v * v.fs_head.clu_cnt ≤ v.dev.size
  pub addressed : v.dev.size < 2 ^ 31

block_end : (l base c b n : ℕ) → c < n → b < 8 → base + 8 * l * c + l * b + l ≤ base + 8 * l * n
block_end l base c b n h k = grind arith

cluster_small : (l n s : ℕ) → 64 ≤ l → 8 * l * n ≤ s → n ≤ s
cluster_small l n s h k = grind arith

pub clusters_few : (v : Volume) → IsVolume v → v.fs_head.clu_cnt < 2 ^ 31
clusters_few v is = omega (
  arith,
  cluster_small (lblk_sz v) v.fs_head.clu_cnt v.dev.size is.fits (omega (arith, is.on_device)),
  is.addressed,
)

-- Every block of every cluster of such a volume lies on the device.
pub IsVolume-InVolume :
    (v : Volume) (cid bid : ℕ) → IsVolume v → cid < v.fs_head.clu_cnt → bid < 8 → InVolume v cid bid
IsVolume-InVolume v cid bid is h k =
    let last =
      block_end (lblk_sz v) (v.fs_head.dta_beg * lblk_sz v) cid bid v.fs_head.clu_cnt h k in
    let few =
      cluster_small (lblk_sz v) v.fs_head.clu_cnt v.dev.size is.fits
        (omega (arith, is.on_device)) in
    record {
      nonneg = omega (arith, is.addressed);
      addressed = omega (arith, is.addressed, is.on_device, is.fits);
      inside = omega (arith, is.on_device);
    }

-- Such a volume stays one when its geometry, the length of its bitmap and its size are kept.
pub IsVolume-kept :
    (v w : Volume)
    → w.fs_head ≡ v.fs_head
    → w.dev.size ≡ v.dev.size
    → length w.fs_bitmap ≡ length v.fs_bitmap
    → IsBytes w.fs_bitmap
    → IsVolume v
    → IsVolume w
IsVolume-kept v w head size flags bytes is = record {
  fits = rw head is.fits;
  flags = rw (head, flags) is.flags;
  flag_bytes = bytes;
  flag_region = rw head is.flag_region;
  before_data = rw head is.before_data;
  on_device = rw (head, size) is.on_device;
  addressed = rw size is.addressed;
}
