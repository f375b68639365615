-- ===== src/File/Release.antt =====
-- dev_del_block: a block of a file becomes free.
use fcfs.Base.{
  ℕ, ◌+◌, ◌-◌, ◌≤◌, ◌≡◌, refl, ◌∙◌, false, List, arith, ◌==◌, length, set, length-set, All-set,
}
use fcfs.Base.Monad.{ok}
use fcfs.Structs.{BlockListEntry, BlkInfo}
use fcfs.Volume.{Volume, lblk_sz}
use fcfs.Device.{at, block_pos, get_blocks}
use fcfs.Layout.{IsVolume-InVolume}
use fcfs.Ctable.Roundtrip.{FitsEntry}
use fcfs.Ctable.View.{table_of, read_ctable-table_of}
use fcfs.Clusters.Coherent.{owners, Coherent, Coherent-at, Replaced-at, sync_bitmap-write_ctable}
use fcfs.Clrs.{when, clrs_cnt}
use fcfs.File.{del_block}
use fcfs.File.Owner.{IsLink, own-set, Reserved, Replaced-Reserved}

-- dev_del_block for a link to a block of data, when dev_tbl_clrs_cnt has returned in a volume whose
-- bitmap agrees with its tables and the block is not the file's only one in its cluster: it ends,
-- the block has no owner afterwards, no other block changes its owner, all blocks of data are kept,
-- and the bitmap agrees with the tables again.
pub del_block_lem :
    (v v' : Volume) (fid clust_cnt : ℕ) (inf : BlkInfo)
    → clrs_cnt fid v ≡ ok clust_cnt v'
    → Coherent v'
    → IsLink v' inf
    → (length (get_blocks (owners v' inf.cid) fid) == 1) ≡ false
    → (res : ℕ) × (w : Volume) × (del_block fid inf.cid inf.bid v ≡ ok res w)
      × Coherent w
      × Reserved v' 0 0 inf w
unfolding del_block
del_block_lem v v' fid clust_cnt inf counted co link several =
    let p : ℕ = block_pos v' inf.cid 0 + lblk_sz v' in
    let shape = co.tables inf.cid link.cluster in
    let inside : inf.bid ≤ length (owners v' inf.cid) = omega (arith, shape.count, link.last) in
    let free : BlockListEntry = record { fid = 0; num = 0 } in
    let entrs : List BlockListEntry = set (owners v' inf.cid) (inf.bid - 1) free in
    let (res, w, x, synced, wrote, co', r) =
      sync_bitmap-write_ctable (at v' p) inf.cid (record (table_of v' inf.cid) { entrs = entrs })
        (Coherent-at v' p co) link.cluster
        (record {
          count = length-set (owners v' inf.cid) (inf.bid - 1) free ∙ shape.count;
          fits =
              All-set FitsEntry (owners v' inf.cid) (inf.bid - 1) free
                (record { fid = omega arith; num = omega arith }) shape.fits;
        }) in
    (
      res,
      x,
      rw
          (
            counted,
            read_ctable-table_of v' inf.cid
                (IsVolume-InVolume v' inf.cid 0 co.volume link.cluster (omega arith))
                co.volume.fits,
            own-set (owners v' inf.cid) inf.bid 0 0 link.first inside,
            synced,
            wrote,
            several,
            when,
          )
          refl,
      co',
      Replaced-Reserved v' 0 0 inf x link.first inside (Replaced-at r),
    )
