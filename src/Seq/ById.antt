-- ===== src/Seq/ById.antt =====
-- Blocks of a file by their logical number: a write is read back, and other numbers keep their data.
use fcfs.Base.{ℕ, ◌+◌, ◌<◌, ◌≡◌, ◌≢◌, ◌⊎◌, subst, refl, Bool, some, List, arith, length}
use fcfs.Base.Monad.{ok}
use fcfs.Structs.{BlkInfo}
use fcfs.Volume.{Volume, IsCipher, lblk_sz}
use fcfs.Device.{need_crypt, at, block_pos}
use fcfs.Device.Blocks.{InVolume, Written, Holds, read_block-Holds, write_block_lem}
use fcfs.Device.Frame.{InVolume-Written, Holds-Written, filled_whole}
use fcfs.Seq.{place, read_by_id, write_by_id}

-- The list gives a logical number a block that lies on the device.
pub record Placed (v : Volume) (seq_sz : ℕ) (l : List BlkInfo) (id : ℕ) (inf : BlkInfo)
    : Type 0 where
  pub found : place seq_sz l id ≡ some (some inf)
  pub block : InVolume v inf.cid inf.bid
  pub small : inf.bid < 8

-- dev_read_by_id returns what the block of that number holds.
pub read_by_id-Holds :
    (v : Volume) (seq_sz : ℕ) (l : List BlkInfo) (id : ℕ) (inf : BlkInfo) (bs : List ℕ)
    → Placed v seq_sz l id inf
    → Holds v inf.cid inf.bid need_crypt bs
    → read_by_id id l seq_sz v ≡ ok (some bs) (at v (block_pos v inf.cid inf.bid + lblk_sz v))
unfolding read_by_id
read_by_id-Holds v seq_sz l id inf bs p h =
    rw (p.found, read_block-Holds v inf.cid inf.bid p.block need_crypt bs h)

-- A write moves no block of the list.
pub Placed-Written :
    {v w : Volume} {c b : ℕ} {flag : Bool} {cs : List ℕ} (seq_sz : ℕ) (l : List BlkInfo) (id : ℕ)
    (inf : BlkInfo)
    → Written v c b flag cs w
    → Placed v seq_sz l id inf
    → Placed w seq_sz l id inf
Placed-Written seq_sz l id inf r q = record {
  found = q.found;
  block = InVolume-Written inf.cid inf.bid r q.block;
  small = q.small;
}

-- A write of a whole block to a number, seen through the blocks.
pub write_by_id-Written :
    (v : Volume) (seq_sz : ℕ) (l : List BlkInfo) (id : ℕ) (inf : BlkInfo) (buf : List ℕ)
    → Placed v seq_sz l id inf
    → IsCipher (lblk_sz v) v.ciph
    → length buf ≡ lblk_sz v
    → (w : Volume) × (write_by_id id buf l seq_sz v ≡ ok 0 w)
      × Written v inf.cid inf.bid need_crypt buf w
unfolding write_by_id
write_by_id-Written v seq_sz l id inf buf p cipher whole =
    let (w, eq, r) =
      write_block_lem v inf.cid inf.bid p.block p.small buf (lblk_sz v) need_crypt (λ _. cipher)
        (omega arith) (omega arith) in
    (
      w,
      rw (p.found, eq) refl,
      subst (λ bs. Written v inf.cid inf.bid need_crypt bs w) (filled_whole v buf whole) r,
    )

-- dev_write_by_id of a whole block to a number that the list places on the device returns 0, and
-- afterwards dev_read_by_id returns the block for that number, and for a number that the list places
-- in another block the data which that block held before.
pub write_by_id-read_by_id :
    (v : Volume) (seq_sz : ℕ) (l : List BlkInfo) (id id' : ℕ) (inf inf' : BlkInfo) (buf bs : List ℕ)
    → Placed v seq_sz l id inf
    → IsCipher (lblk_sz v) v.ciph
    → length buf ≡ lblk_sz v
    → Placed v seq_sz l id' inf'
    → (inf'.cid ≢ inf.cid) ⊎ (inf'.bid ≢ inf.bid)
    → Holds v inf'.cid inf'.bid need_crypt bs
    → (w : Volume) × (write_by_id id buf l seq_sz v ≡ ok 0 w)
      × (read_by_id id l seq_sz w ≡ ok (some buf) (at w (block_pos w inf.cid inf.bid + lblk_sz w)))
      × (read_by_id id' l seq_sz w
          ≡ ok (some bs) (at w (block_pos w inf'.cid inf'.bid + lblk_sz w)))
write_by_id-read_by_id v seq_sz l id id' inf inf' buf bs p cipher whole p' ne h =
    let (w, eq, r) = write_by_id-Written v seq_sz l id inf buf p cipher whole in
    (
      w,
      eq,
      read_by_id-Holds w seq_sz l id inf buf (Placed-Written seq_sz l id inf r p) r.holds,
      read_by_id-Holds w seq_sz l id' inf' bs (Placed-Written seq_sz l id' inf' r p')
          (Holds-Written inf'.cid inf'.bid r p'.small ne h),
    )
