-- ===== src/Clusters/Coherent.antt =====
-- The bitmap agrees with the tables of owners, before and after a table has changed.
use fcfs.Base.{
  ℕ, ◌≤◌, ◌<◌, ◌≡◌, ◌≢◌, refl, ap, sym, ◌∙◌, Bool, not, List, [], arith, ◌==◌, if◌then◌else◌,
  length, Bool-cases, inl, inr, ==→eq,
}
use fcfs.Base.Monad.{Run, ok, died, fault, out_of_fuel}
use fcfs.Structs.{BlockList, BlockListEntry}
use fcfs.Volume.{Volume}
use fcfs.Device.{at}
use fcfs.Device.Blocks.{raw}
use fcfs.Layout.{IsVolume, IsVolume-kept, IsVolume-InVolume}
use fcfs.Bitmap.{has_free}
use fcfs.Bitmap.Update.{used}
use fcfs.Ctable.{write_ctable}
use fcfs.Ctable.Roundtrip.{IsBlockList, write_ctable_lem}
use fcfs.Ctable.View.{table_of, table_of-eq, read_ctable-table_of}
use fcfs.Clusters.{sync_bitmap}
use fcfs.Clusters.Sync.{Synced, sync_bitmap_lem}

-- The owners of the blocks of a cluster.
abbrev pub owners : Volume → ℕ → List BlockListEntry
owners v c = (table_of v c).entrs

-- Every cluster has a table of 7 entries, and its flag is set exactly when no entry is free.
pub record Coherent (v : Volume) : Type 0 where
  pub volume : IsVolume v
  pub tables : (c : ℕ) → c < v.fs_head.clu_cnt → IsBlockList (owners v c)
  pub flags : (c : ℕ) → c < v.fs_head.clu_cnt → used v.fs_bitmap c ≡ not (has_free (owners v c))

-- The owners of one cluster have been replaced; no other table, no block of data and nothing but
-- device and bitmap has changed.
pub record Replaced (v : Volume) (cid : ℕ) (entrs : List BlockListEntry) (w : Volume) : Type 0 where
  pub here : owners w cid ≡ entrs
  pub elsewhere : (c : ℕ) → c ≢ cid → owners w c ≡ owners v c
  pub contents : (c b : ℕ) → 1 ≤ b → b < 8 → raw w c b ≡ raw v c b
  pub rest : w ≡ record v { dev = w.dev; fs_bitmap = w.fs_bitmap }

entrs_of : Run Volume BlockList → List BlockListEntry
entrs_of (ok bl s) = bl.entrs
entrs_of died = []
entrs_of fault = []
entrs_of out_of_fuel = []

-- A write of a table, seen through the tables.
write_ctable-Replaced :
    (v : Volume) (cid : ℕ) (bl : BlockList)
    → IsVolume v
    → cid < v.fs_head.clu_cnt
    → IsBlockList bl.entrs
    → (res : ℕ) × (w : Volume) × (write_ctable cid bl v ≡ ok res w)
      × IsVolume w
      × (w.fs_bitmap ≡ v.fs_bitmap)
      × Replaced v cid bl.entrs w
unfolding entrs_of
write_ctable-Replaced v cid bl is small shape =
    let (w, eq, r) =
      write_ctable_lem v cid bl (IsVolume-InVolume v cid 0 is small (omega arith)) is.fits shape in
    let head : w.fs_head ≡ v.fs_head = ap (λ x. x.fs_head) r.written.rest in
    let flags : w.fs_bitmap ≡ v.fs_bitmap = ap (λ x. x.fs_bitmap) r.written.rest in
    let volume =
      IsVolume-kept v w head r.written.same_size (ap length flags) (rw flags is.flag_bytes) is in
    (
      _,
      w,
      eq,
      volume,
      flags,
      record {
        here = ap entrs_of (
            sym (
              read_ctable-table_of w cid
                (IsVolume-InVolume w cid 0 volume (rw head small) (omega arith)) volume.fits)
            ∙ r.read);
        elsewhere = λ c ne.
            ap (λ t. t.entrs)
              (table_of-eq v w c head (r.written.others c 0 (omega arith) (inl ne)));
        contents = λ c b pos lt. r.written.others c b lt (inr (omega arith));
        rest = r.written.rest ∙ λ i. record v { dev = w.dev; fs_bitmap = sym flags i };
      },
    )

-- A synchronised bitmap leaves every table.
owners-Synced :
    {v w : Volume} {full : Bool} {cid : ℕ} (c : ℕ) → Synced v full cid w → owners w c ≡ owners v c
owners-Synced {v} {w} c s =
    ap (λ t. t.entrs) (table_of-eq v w c (ap (λ x. x.fs_head) s.rest) (s.blocks c 0))

Replaced-Synced :
    {v w x : Volume} {full : Bool} {cid : ℕ} {entrs : List BlockListEntry}
    → Replaced v cid entrs w
    → Synced w full cid x
    → Replaced v cid entrs x
Replaced-Synced {v} {w} {x} {full} {cid} r s = record {
  here = owners-Synced cid s ∙ r.here;
  elsewhere = λ c ne. owners-Synced c s ∙ r.elsewhere c ne;
  contents = λ c b pos lt. s.blocks c b ∙ r.contents c b pos lt;
  rest = s.rest ∙ λ i. record (r.rest i) { dev = x.dev; fs_bitmap = x.fs_bitmap };
}

Synced-Replaced :
    {v w x : Volume} {full : Bool} {cid : ℕ} {entrs : List BlockListEntry}
    → Synced v full cid w
    → Replaced w cid entrs x
    → Replaced v cid entrs x
Synced-Replaced {v} {w} {x} s r = record {
  here = r.here;
  elsewhere = λ c ne. r.elsewhere c ne ∙ owners-Synced c s;
  contents = λ c b pos lt. r.contents c b pos lt ∙ s.blocks c b;
  rest = r.rest ∙ λ i. record (s.rest i) { dev = x.dev; fs_bitmap = x.fs_bitmap };
}

-- A replaced table and the flag that goes with it keep bitmap and tables in agreement.
Replaced-Coherent :
    (v x : Volume) (cid : ℕ) (entrs : List BlockListEntry)
    → Coherent v
    → IsBlockList entrs
    → IsVolume x
    → Replaced v cid entrs x
    → ((c : ℕ)
        → used x.fs_bitmap c ≡ (if c == cid then not (has_free entrs) else used v.fs_bitmap c))
    → Coherent x
Replaced-Coherent v x cid entrs co shape volume r flags =
    let head : x.fs_head ≡ v.fs_head = ap (λ y. y.fs_head) r.rest in
    record {
      volume = volume;
      tables = λ c lt. elim (Bool-cases (c == cid)) [
        | inl same ↦ rw (==→eq _ _ same, r.here) shape
        | inr other ↦ rw (r.elsewhere c (ground arith)) (co.tables c (rw (← head) lt))
      ];
      flags = λ c lt. elim (Bool-cases (c == cid)) [
        | inl same ↦ flags c ∙ rw (same, ==→eq _ _ same, r.here) refl
        | inr other ↦
            flags c ∙ rw (other, r.elsewhere c (ground arith)) (co.flags c (rw (← head) lt))
      ];
    }

module _ (v : Volume) (cid : ℕ) (bl : BlockList) (co : Coherent v) (small : cid < v.fs_head.clu_cnt)
    (shape : IsBlockList bl.entrs) where
  -- The table first, then the bitmap: dev_file_alloc, dev_file_reserve and dev_clust_claim.
  pub write_ctable-sync_bitmap :
      (res : ℕ) × (w x : Volume) × (write_ctable cid bl v ≡ ok res w)
      × (sync_bitmap bl.entrs cid w ≡ ok tt x)
      × Coherent x
      × Replaced v cid bl.entrs x
  write_ctable-sync_bitmap =
      let (res, w, wrote, volume, same, r) = write_ctable-Replaced v cid bl co.volume small shape in
      let (x, synced, s) =
        sync_bitmap_lem w bl.entrs cid volume (rw (ap (λ y. y.fs_head) r.rest) small) in
      let both = Replaced-Synced r s in
      (
        res,
        w,
        x,
        wrote,
        synced,
        Replaced-Coherent v x cid bl.entrs co shape s.volume both (rw (← same) s.flags),
        both,
      )

  -- The bitmap first, then the table: dev_del_block.
  pub sync_bitmap-write_ctable :
      (res : ℕ) × (w x : Volume) × (sync_bitmap bl.entrs cid v ≡ ok tt w)
      × (write_ctable cid bl w ≡ ok res x)
      × Coherent x
      × Replaced v cid bl.entrs x
  sync_bitmap-write_ctable =
      let (w, synced, s) = sync_bitmap_lem v bl.entrs cid co.volume small in
      let (res, x, wrote, volume, same, r) =
        write_ctable-Replaced w cid bl s.volume (rw (ap (λ y. y.fs_head) s.rest) small) shape in
      let both = Synced-Replaced s r in
      (
        res,
        w,
        x,
        synced,
        wrote,
        Replaced-Coherent v x cid bl.entrs co shape volume both (rw same s.flags),
        both,
      )

-- The agreement is one of head, bitmap and blocks: position, file table and caches do not matter.
pub owners-kept :
    (v w : Volume) (c : ℕ) → w.fs_head ≡ v.fs_head → raw w c 0 ≡ raw v c 0 → owners w c ≡ owners v c
owners-kept v w c head same = ap (λ t. t.entrs) (table_of-eq v w c head same)

pub Coherent-kept :
    (v w : Volume)
    → w.fs_head ≡ v.fs_head
    → w.dev.size ≡ v.dev.size
    → w.fs_bitmap ≡ v.fs_bitmap
    → ((c : ℕ) → raw w c 0 ≡ raw v c 0)
    → Coherent v
    → Coherent w
Coherent-kept v w head size flags blocks co = record {
  volume = IsVolume-kept v w head size (ap length flags) (rw flags co.volume.flag_bytes) co.volume;
  tables = λ c lt. rw (owners-kept v w c head (blocks c)) (co.tables c (rw (← head) lt));
  flags = λ c lt. rw (owners-kept v w c head (blocks c), flags) (co.flags c (rw (← head) lt));
}

-- Reading moves the position of the stream only.
pub owners-at : (v : Volume) (p c : ℕ) → owners (at v p) c ≡ owners v c
owners-at v p c = owners-kept v (at v p) c refl refl

pub Coherent-at : (v : Volume) (p : ℕ) → Coherent v → Coherent (at v p)
Coherent-at v p co = Coherent-kept v (at v p) refl refl refl (λ c. refl) co

pub Replaced-at :
    {v w : Volume} {p cid : ℕ} {entrs : List BlockListEntry}
    → Replaced (at v p) cid entrs w
    → Replaced v cid entrs w
Replaced-at {v} {w} {p} r = record {
  here = r.here;
  elsewhere = λ c ne. r.elsewhere c ne ∙ owners-at v p c;
  contents = r.contents;
  rest = r.rest;
}
