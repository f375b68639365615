-- ===== src/File/Alloc.antt =====
-- dev_file_alloc: a new file gets an entry of the file table and a block.
use fcfs.Base.{
  ℕ, ◌+◌, ◌-◌, ◌^◌, ◌≤◌, ◌<◌, ◌≡◌, ◌≢◌, refl, ap, sym, ◌∙◌, not, true, false, ◌&&◌, some, List, ◌∷◌,
  arith, ◌==◌, if◌then◌else◌, length, length-set, All-set, get_elem?, get_elem?-set_here,
  get_elem?-length, get_or, set, replicate,
}
use fcfs.Base.Monad.{ok}
use fcfs.Base.Words.{u16, is_neg, minus_one}
use fcfs.Structs.{BlockListEntry, TableEntry, cluster_per_file}
use fcfs.Volume.{Volume, lblk_sz}
use fcfs.Device.{at, block_pos, get_blocks}
use fcfs.Device.Blocks.{raw}
use fcfs.Bitmap.{has_free}
use fcfs.Bitmap
use fcfs.Bitmap.Update.{used}
use fcfs.Bitmap.Search.{FirstFree, FirstFree-le, free_cluster_from_lem}
use fcfs.Layout.{IsVolume-InVolume, clusters_few}
use fcfs.Ctable.Roundtrip.{FitsEntry}
use fcfs.Ctable.View.{table_of, read_ctable-table_of}
use fcfs.Persist.{write_table}
use fcfs.Clusters.{free_cluster, free_cluster_from}
use fcfs.Clusters.Coherent.{
  owners, owners-kept, Coherent, Coherent-at, Replaced-at, write_ctable-sync_bitmap,
}
use fcfs.File.{no_file, alloc_block, file_alloc}
use fcfs.Clusters.Ready.{
  Ready, Ready-kept, Ready-with_entry, write_table-Ready, with_entry, with_entry_twice,
  owners-with_entry,
}
use fcfs.File.Owner.{owner, own-set, Reserved, Replaced-Reserved}
use fcfs.File.FirstBlock.{FirstBlock, blocks_from-FirstBlock}

-- the entry of a file whose first cluster is `cid`
abbrev pub new_file : ℕ → TableEntry
new_file cid = record { lnk_cnt = 1; clrs = u16 cid ∷ replicate (cluster_per_file - 1) 0 }

-- What dev_file_alloc leaves: block `k + 1` of cluster `c` is the file's number 0.
pub record Allocated (v : Volume) (fid c k : ℕ) (w : Volume) : Type 0 where
  pub cluster : c < v.fs_head.clu_cnt
  pub ready : Ready w
  pub owned :
      (d i : ℕ)
      → owner w d i
        ≡ (if d == c && i == k then some (record { fid = fid; num = 0 }) else owner v d i)
  pub contents : (d b : ℕ) → 1 ≤ b → b < 8 → raw w d b ≡ raw v d b
  pub rest : w ≡ record (with_entry v fid (new_file c)) { dev = w.dev; fs_bitmap = w.fs_bitmap }

-- dev_write_table behind a change of one entry.
write_table-Allocated :
    (v u x : Volume) (fid c k : ℕ)
    → c < v.fs_head.clu_cnt
    → u ≡ with_entry v fid (new_file c)
    → Ready u
    → Coherent x
    → Reserved u fid 0 (record { cid = c; bid = k + 1; num = 0 }) x
    → (w : Volume) × (write_table x ≡ ok 0 w) × Allocated v fid c k w
write_table-Allocated v u x fid c k inside from ready co r =
    let same : (d : ℕ) → owners u d ≡ owners v d =
      λ d. ap (λ y. owners y d) from ∙ owners-with_entry v fid (new_file c) d in
    let ready_x : Ready x =
      Ready-kept u x (ap (λ y. y.fs_head) r.rest) (ap (λ y. y.fs_table) r.rest)
        (ap (λ y. y.ciph) r.rest) co ready in
    let (w, eq, kept, ready_w) = write_table-Ready x ready_x in
    (
      w,
      eq,
      record {
        cluster = inside;
        ready = ready_w;
        owned = λ d i.
            let test : (i + 1 == k + 1) ≡ (i == k) = ground arith in
            ap (λ es. get_elem? es i)
              (owners-kept x w d (ap (λ y. y.fs_head) kept.rest) (kept.blocks d 0))
            ∙ r.owned d i
            ∙ λ j.
                if d == c && test j
                then some (record { fid = fid; num = 0 })
                else get_elem? (same d j) i;
        contents = λ d b pos lt. kept.blocks d b ∙ r.contents d b pos lt ∙ ap (λ y. raw y d b) from;
        rest =
            kept.rest
            ∙ (λ i. record (r.rest i) { dev = w.dev })
            ∙ (λ i. record (from i) { dev = w.dev; fs_bitmap = x.fs_bitmap })
            ∙ λ i. record (with_entry v fid (new_file c)) {
              dev = w.dev;
              fs_bitmap = ap (λ y. y.fs_bitmap) (sym kept.rest) i;
            };
      },
    )

-- dev_file_alloc once the search has found a cluster.
file_alloc_found :
    (v : Volume) (fid c : ℕ) (old : TableEntry)
    → Ready v
    → get_elem? v.fs_table.entrs fid ≡ some old
    → fid < 2 ^ 32
    → Bitmap.free_cluster_from v.fs_bitmap v.fs_head.clu_cnt 0 ≡ some c
    → c ≢ 0
    → c < v.fs_head.clu_cnt
    → used v.fs_bitmap c ≡ false
    → (w : Volume) × (k : ℕ) × (file_alloc fid v ≡ ok 0 w)
      × FirstBlock (owners v c) k
      × Allocated v fid c k w
unfolding file_alloc alloc_block free_cluster free_cluster_from get_blocks
file_alloc_found v fid c old ready at_fid few found id small clear =
    let u : Volume = with_entry v fid no_file in
    let u' : Volume = with_entry u fid (new_file c) in
    let p : ℕ = block_pos u' c 0 + lblk_sz u' in
    let ready' : Ready u' =
      Ready-with_entry u fid (new_file c) refl (Ready-with_entry v fid no_file refl ready) in
    let co' : Coherent u' = ready'.coherent in
    let same : (d : ℕ) → owners u' d ≡ owners v d = λ d. owners-kept v u' d refl refl in
    let room : has_free (owners v c) ≡ true =
      ground (arith, sym (ready.coherent.flags c small) ∙ clear) in
    let (k, rest, eq, first) = blocks_from-FirstBlock (owners v c) 0 room in
    let blocks : get_blocks (owners u' c) 0 ≡ (k + 1) ∷ rest =
      ap (λ es. get_blocks es 0) (same c)
      ∙ eq
      ∙ ap (λ b. b ∷ rest) {x = 0 + 1 + k} {y = k + 1} (omega arith) in
    let shape = co'.tables c small in
    let inside : k + 1 ≤ length (owners u' c) = omega (arith, first.inside, ap length (same c)) in
    let entrs : List BlockListEntry =
      set (owners u' c) (k + 1 - 1) (record { fid = fid; num = 0 }) in
    let (res, w, x, wrote, synced, co'', r) =
      write_ctable-sync_bitmap (at u' p) c (record (table_of u' c) { entrs = entrs })
        (Coherent-at u' p co') small
        (record {
          count =
              length-set (owners u' c) (k + 1 - 1) (record { fid = fid; num = 0 }) ∙ shape.count;
          fits =
              All-set FitsEntry (owners u' c) (k + 1 - 1) (record { fid = fid; num = 0 })
                (record { fid = few; num = omega arith }) shape.fits;
        }) in
    let (y, saved, done) =
      write_table-Allocated v u' x fid c k small (with_entry_twice v fid no_file (new_file c))
        ready' co''
        (Replaced-Reserved u' fid 0 (record { cid = c; bid = k + 1; num = 0 }) x (omega arith)
          inside (Replaced-at r)) in
    let nonneg : is_neg c ≡ false = ground (arith, clusters_few v ready.coherent.volume, small) in
    let some_cluster : (c == 0) ≡ false = ground (arith, id) in
    let again : get_elem? u.fs_table.entrs fid ≡ some no_file =
      get_elem?-set_here v.fs_table.entrs fid no_file
        (get_elem?-length v.fs_table.entrs fid old at_fid) in
    (
      y,
      k,
      rw
          (
            at_fid,
            found,
            nonneg,
            some_cluster,
            again,
            read_ctable-table_of u' c (IsVolume-InVolume u' c 0 co'.volume small (omega arith))
                co'.volume.fits,
            blocks,
            own-set (owners u' c) (k + 1) fid 0 (omega arith) inside,
            wrote,
            synced,
            saved,
          )
          refl,
      first,
      done,
    )

-- dev_file_alloc on a volume whose bitmap agrees with its tables of owners and whose file table
-- fits its region and the cipher, for a file with a number of 32 bits and a place in that table,
-- when byte 0 of the bitmap is not full and some cluster behind cluster 0 has a free block: it
-- returns 0. The first block without an owner of the first such cluster then belongs to the file
-- under number 0, no other block changes its owner, the file's entry has one link and that cluster
-- alone, no other entry of the file table and no block of data changes, and bitmap and file table
-- are in the same order again.
pub file_alloc_lem :
    (v : Volume) (fid d : ℕ) (old : TableEntry)
    → Ready v
    → get_elem? v.fs_table.entrs fid ≡ some old
    → fid < 2 ^ 32
    → get_or v.fs_bitmap 0 0 ≢ 255
    → 0 < d
    → d < v.fs_head.clu_cnt
    → has_free (owners v d) ≡ true
    → (w : Volume) × (c k : ℕ) × (file_alloc fid v ≡ ok 0 w)
      × FirstFree v.fs_bitmap 0 c
      × FirstBlock (owners v c) k
      × Allocated v fid c k w
file_alloc_lem v fid d old ready at_fid few room behind small free =
    let clear : used v.fs_bitmap d ≡ false = ready.coherent.flags d small ∙ ap not free in
    let (c, found, first) =
      free_cluster_from_lem v.fs_bitmap v.fs_head.clu_cnt 0 d ready.coherent.volume.flag_bytes
        (omega arith) room behind (omega (arith, ready.coherent.volume.flags)) (omega arith)
        clear in
    let within : c ≤ d = FirstFree-le v.fs_bitmap 0 c d first behind clear in
    let (w, k, eq, block, done) =
      file_alloc_found v fid c old ready at_fid few found
        (λ e. absurd (omega (arith, e, first.behind))) (omega (arith, within)) first.free in
    (w, c, k, eq, first, block, done)

-- Without a free cluster the entry is cleared all the same.
pub file_alloc_full :
    (v : Volume) (fid : ℕ) (old : TableEntry)
    → get_elem? v.fs_table.entrs fid ≡ some old
    → Bitmap.free_cluster_from v.fs_bitmap v.fs_head.clu_cnt 0 ≡ some minus_one
    → file_alloc fid v ≡ ok minus_one (with_entry v fid no_file)
unfolding file_alloc free_cluster free_cluster_from
file_alloc_full v fid old at_fid full = rw (at_fid, full) refl
