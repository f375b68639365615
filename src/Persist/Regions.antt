-- ===== src/Persist/Regions.antt =====
-- dev_write_bitmap stays inside its region.
use fcfs.Base.{
  ℕ, ◌+◌, ◌-◌, ◌*◌, ◌/◌, ◌≤◌, ◌≡◌, refl, inr, List, ◌++◌, arith, length, take, replicate, min,
  length-append, length-take, length-replicate, take-all, le→ltb,
}
use fcfs.Base.Monad.{ok}
use fcfs.Volume.{Volume, lblk_sz}
use fcfs.Device.{stored, fwrite, padded, block_pos}
use fcfs.Device.Bytes.{bytes_at-write_outside}
use fcfs.Device.Blocks.{raw}
use fcfs.Layout.{IsVolume}
use fcfs.Persist.{write_bitmap}

-- Only the device has changed, and no block of a cluster is among what changed.
pub record BlocksKept (v w : Volume) : Type 0 where
  pub rest : w ≡ record v { dev = w.dev }
  pub same_size : w.dev.size ≡ v.dev.size
  pub blocks : (cid bid : ℕ) → raw w cid bid ≡ raw v cid bid

pub mul_mono : (l m n : ℕ) → m ≤ n → m * l ≤ n * l
mul_mono l m n h = grind arith

region_before :
    (v : Volume) (cid bid : ℕ)
    → v.fs_head.bmp_len + 1 ≤ v.fs_head.dta_beg
    → lblk_sz v + v.fs_head.bmp_len * lblk_sz v ≤ block_pos v cid bid
region_before v cid bid h =
    omega (arith, mul_mono (lblk_sz v) (v.fs_head.bmp_len + 1) v.fs_head.dta_beg h)

-- the bytes that dev_write_bitmap sends
abbrev pub bitmap_buf : Volume → List ℕ
bitmap_buf v =
    take (v.fs_head.clu_cnt / 8) v.fs_bitmap
    ++ replicate (v.fs_head.bmp_len * lblk_sz v - v.fs_head.clu_cnt / 8) 0

pub length-bitmap_buf :
    (v : Volume) → IsVolume v → length (bitmap_buf v) ≡ v.fs_head.bmp_len * lblk_sz v
length-bitmap_buf v is =
    let n : ℕ = v.fs_head.clu_cnt / 8 in
    let rest : ℕ = v.fs_head.bmp_len * lblk_sz v - n in
    omega (
      arith,
      length-append (take n v.fs_bitmap) (replicate rest 0),
      length-take n v.fs_bitmap,
      length-replicate {A = ℕ} rest 0,
      is.flags,
      is.flag_region,
    )

-- The write fills the region of the bitmap and returns 0.
pub write_bitmap-stored :
    (v : Volume) → IsVolume v → write_bitmap v ≡ ok 0 (stored v (lblk_sz v) (bitmap_buf v))
unfolding write_bitmap fwrite padded
write_bitmap-stored v is =
    let size = length-bitmap_buf v is in
    let all : min (length (bitmap_buf v)) (v.dev.size - lblk_sz v) ≡ v.fs_head.bmp_len * lblk_sz v =
      omega (arith, is.on_device, region_before v 0 0 is.before_data) in
    rw
      (
        le→ltb _ _ is.flag_region,
        le→ltb (length v.fs_bitmap) (v.fs_head.clu_cnt / 8) (omega (arith, is.flags)),
        all,
        take-all (v.fs_head.bmp_len * lblk_sz v) (bitmap_buf v) (omega arith),
      )
      refl

-- dev_write_bitmap on a volume in order returns 0 and changes no block of a cluster.
pub write_bitmap-BlocksKept :
    (v : Volume) → IsVolume v → (w : Volume) × (write_bitmap v ≡ ok 0 w) × BlocksKept v w
write_bitmap-BlocksKept v is =
    let size = length-bitmap_buf v is in
    (
      stored v (lblk_sz v) (bitmap_buf v),
      write_bitmap-stored v is,
      record {
        rest = refl;
        same_size = refl;
        blocks = λ cid bid.
            bytes_at-write_outside v.dev.byte (lblk_sz v) (bitmap_buf v) (block_pos v cid bid)
              (lblk_sz v) (inr (omega (arith, region_before v cid bid is.before_data)));
      },
    )
