-- ===== src/Clusters/Claim.antt =====
-- dev_clust_claim: every block of a cluster goes to the cluster map.
use fcfs.Base.{ℕ, ◌+◌, ◌<◌, ◌≤◌, ◌≡◌, refl, ap, ◌∙◌, true, false, List, [], ◌∷◌, arith, All, length}
use fcfs.Base.Monad.{ok}
use fcfs.Structs.{BlockListEntry}
use fcfs.Volume.{Volume, lblk_sz}
use fcfs.Device.{at, block_pos}
use fcfs.Layout.{IsVolume-InVolume}
use fcfs.Bitmap.{has_free}
use fcfs.Bitmap.Update.{used}
use fcfs.Ctable.Roundtrip.{FitsEntry}
use fcfs.Ctable.View.{table_of, read_ctable-table_of}
use fcfs.Clusters.{claimed, clust_claim}
use fcfs.Clusters.Coherent.{
  owners, Coherent, Coherent-at, Replaced, Replaced-at, write_ctable-sync_bitmap,
}

length-claimed : (i : ℕ) (es : List BlockListEntry) → length (claimed i es) ≡ length es
unfolding claimed
length-claimed i [] = refl
length-claimed i (e ∷ es) = omega (arith, length-claimed (i + 1) es)

claimed-fits : (i : ℕ) (es : List BlockListEntry) → i + length es ≤ 7 → All FitsEntry (claimed i es)
unfolding claimed
claimed-fits i [] h = tt
claimed-fits i (e ∷ es) h =
    (record { fid = omega arith; num = omega arith }, claimed-fits (i + 1) es (omega arith))

has_free-claimed : (i : ℕ) (es : List BlockListEntry) → has_free (claimed i es) ≡ false
unfolding claimed has_free
has_free-claimed i [] = refl
has_free-claimed i (e ∷ es) = ground (arith, has_free-claimed (i + 1) es)

pub clust_claim_lem :
    (v : Volume) (cid : ℕ)
    → Coherent v
    → cid < v.fs_head.clu_cnt
    → (res : ℕ) × (w : Volume) × (clust_claim cid v ≡ ok res w)
      × Coherent w
      × (used w.fs_bitmap cid ≡ true)
      × Replaced v cid (claimed 0 (owners v cid)) w
unfolding clust_claim
clust_claim_lem v cid co small =
    let p : ℕ = block_pos v cid 0 + lblk_sz v in
    let shape = co.tables cid small in
    let (res, w, x, wrote, synced, co', r) =
      write_ctable-sync_bitmap (at v p) cid
        (record (table_of v cid) { entrs = claimed 0 (owners v cid) }) (Coherent-at v p co) small
        (record {
          count = length-claimed 0 (owners v cid) ∙ shape.count;
          fits = claimed-fits 0 (owners v cid) (omega (arith, shape.count));
        }) in
    let small' : cid < x.fs_head.clu_cnt = rw (ap (λ y. y.fs_head) r.rest) small in
    (
      res,
      x,
      rw
          (
            read_ctable-table_of v cid (IsVolume-InVolume v cid 0 co.volume small (omega arith))
                co.volume.fits,
            wrote,
            synced,
          )
          refl,
      co',
      co'.flags cid small' ∙ rw (r.here, has_free-claimed) refl,
      Replaced-at r,
    )
