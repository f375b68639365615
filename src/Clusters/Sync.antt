-- ===== src/Clusters/Sync.antt =====
-- The bitmap in memory and on the device after a table has changed.
use fcfs.Base.{
  ℕ, ◌<◌, ◌≡◌, refl, ap, sym, ◌∙◌, Bool, not, List, arith, ◌==◌, if◌then◌else◌, length, Bool-cases,
  inl, inr,
}
use fcfs.Base.Bytes.{IsBytes}
use fcfs.Base.Monad.{ok}
use fcfs.Structs.{BlockListEntry}
use fcfs.Volume.{Volume}
use fcfs.Device.Blocks.{raw}
use fcfs.Layout.{IsVolume, IsVolume-kept, clusters_few}
use fcfs.Bitmap.{has_free}
use fcfs.Bitmap.Update.{used, upd_bitmap_lem}
use fcfs.Persist.Regions.{write_bitmap-BlocksKept}
use fcfs.Clusters.{upd_bitmap, sync_bitmap}

-- What dev_upd_bitmap and the write behind it leave: the flag of `cid` is `full`, the other flags,
-- every block and all of the volume but device and bitmap are kept.
pub record Synced (v : Volume) (full : Bool) (cid : ℕ) (w : Volume) : Type 0 where
  pub flags : (c : ℕ) → used w.fs_bitmap c ≡ (if c == cid then full else used v.fs_bitmap c)
  pub blocks : (c b : ℕ) → raw w c b ≡ raw v c b
  pub rest : w ≡ record v { dev = w.dev; fs_bitmap = w.fs_bitmap }
  pub volume : IsVolume w

abbrev flagged : Volume → List ℕ → Volume
flagged v bitmap = record v { fs_bitmap = bitmap }

flagged-IsVolume :
    (v : Volume) (bitmap : List ℕ)
    → length bitmap ≡ length v.fs_bitmap
    → IsBytes bitmap
    → IsVolume v
    → IsVolume (flagged v bitmap)
flagged-IsVolume v bitmap same bytes is = IsVolume-kept v (flagged v bitmap) refl refl same bytes is

-- dev_upd_bitmap for a cluster of a volume in order, and dev_write_bitmap when the flag changed:
-- the flag of the cluster says afterwards whether its table has no free block, no other flag and
-- no block of a cluster changes, and the volume stays in order.
pub sync_bitmap_lem :
    (v : Volume) (entrs : List BlockListEntry) (cid : ℕ)
    → IsVolume v
    → cid < v.fs_head.clu_cnt
    → (w : Volume) × (sync_bitmap entrs cid v ≡ ok tt w) × Synced v (not (has_free entrs)) cid w
unfolding sync_bitmap upd_bitmap
sync_bitmap_lem v entrs cid is small =
    let ((changed, bitmap), eq, u) =
      upd_bitmap_lem v.fs_bitmap entrs cid is.flag_bytes (omega (arith, clusters_few v is))
        (omega (arith, is.flags)) in
    let volume = flagged-IsVolume v bitmap u.same_length u.bytes is in
    elim (Bool-cases changed) [
      | inl flip ↦
          let (w, wrote, k) = write_bitmap-BlocksKept (flagged v bitmap) volume in
          let same : w.fs_bitmap ≡ bitmap = ap (λ x. x.fs_bitmap) k.rest in
          (
            w,
            rw (eq, flip, wrote) refl,
            record {
              flags = λ c. ap (λ x. used x.fs_bitmap c) k.rest ∙ u.flags c;
              blocks = k.blocks;
              rest = k.rest ∙ λ i. record v { dev = w.dev; fs_bitmap = sym same i };
              volume =
                  IsVolume-kept (flagged v bitmap) w (ap (λ x. x.fs_head) k.rest) k.same_size
                    (ap length same) (rw same u.bytes) volume;
            },
          )
      | inr still ↦ (
        flagged v bitmap,
        rw (eq, still) refl,
        record { flags = u.flags; blocks = λ c b. refl; rest = refl; volume = volume },
      )
    ]
