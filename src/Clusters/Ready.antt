-- ===== src/Clusters/Ready.antt =====
-- A volume on which the operations of dev/*.c run: with its bitmap and its file table in order.
-- The file table is that of `args->fs_table`, which dev_file_alloc, dev_tbl_clrs_add and dev_rm_file
-- change in one entry and then write to the device.
use fcfs.Base.{
  ℕ, ◌≡◌, refl, ap, subst, ◌*◌, zero, suc, none, some, List, [], ◌∷◌, arith, All, length, get_elem?,
  set, set_twice, length-set, All-set,
}
use fcfs.Base.Monad.{ok}
use fcfs.Structs.{TableEntry, cluster_per_file}
use fcfs.Volume.{Volume, IsCipher, lblk_sz}
use fcfs.Persist.{write_table}
use fcfs.Persist.TableRegion.{IsTable, write_table-BlocksKept, TableSaved}
use fcfs.Persist.Regions.{BlocksKept}
use fcfs.Clusters.Coherent.{Coherent, Coherent-kept, owners, owners-kept}

abbrev pub with_entry : Volume → ℕ → TableEntry → Volume
with_entry v fid e = record v {
  fs_table = record v.fs_table { entrs = set v.fs_table.entrs fid e };
}

pub with_entry_twice :
    (v : Volume) (fid : ℕ) (e f : TableEntry)
    → with_entry (with_entry v fid e) fid f ≡ with_entry v fid f
with_entry_twice v fid e f =
    ap (λ es. record v { fs_table = record v.fs_table { entrs = es } })
      (set_twice v.fs_table.entrs fid e f)

pub owners-with_entry :
    (v : Volume) (fid : ℕ) (e : TableEntry) (c : ℕ) → owners (with_entry v fid e) c ≡ owners v c
owners-with_entry v fid e c = owners-kept v (with_entry v fid e) c refl refl

pub Coherent-with_entry :
    (v : Volume) (fid : ℕ) (e : TableEntry) → Coherent v → Coherent (with_entry v fid e)
Coherent-with_entry v fid e co = Coherent-kept v (with_entry v fid e) refl refl refl (λ c. refl) co

-- The table keeps its layout when the new entry has as many clusters as every other.
pub IsTable-with_entry :
    (v : Volume) (fid : ℕ) (e : TableEntry)
    → length e.clrs ≡ cluster_per_file
    → IsTable v
    → IsTable (with_entry v fid e)
IsTable-with_entry v fid e whole is = record {
  clusters =
      All-set (λ x. length x.clrs ≡ cluster_per_file) v.fs_table.entrs fid e whole is.clusters;
  fits = rw (length-set v.fs_table.entrs fid e) is.fits;
  before_data = is.before_data;
}

-- The bitmap agrees with the tables of owners, the file table fits its region, and the cipher can
-- encrypt it.
pub record Ready (v : Volume) : Type 0 where
  pub coherent : Coherent v
  pub table : IsTable v
  pub cipher : IsCipher (v.fs_head.tbl_len * lblk_sz v) v.ciph

-- Such a volume stays one as long as its bitmap agrees and head, file table and cipher are kept.
pub Ready-kept :
    (v w : Volume)
    → w.fs_head ≡ v.fs_head
    → w.fs_table ≡ v.fs_table
    → w.ciph ≡ v.ciph
    → Coherent w
    → Ready v
    → Ready w
Ready-kept v w head table ciph co r = record {
  coherent = co;
  table = record {
    clusters = rw table r.table.clusters;
    fits = rw (table, head) r.table.fits;
    before_data = rw head r.table.before_data;
  };
  cipher = rw (head, ciph) r.cipher;
}

pub Ready-with_entry :
    (v : Volume) (fid : ℕ) (e : TableEntry)
    → length e.clrs ≡ cluster_per_file
    → Ready v
    → Ready (with_entry v fid e)
Ready-with_entry v fid e whole r = record {
  coherent = Coherent-with_entry v fid e r.coherent;
  table = IsTable-with_entry v fid e whole r.table;
  cipher = r.cipher;
}

-- dev_write_table on such a volume returns 0, keeps every block of a cluster and saves the table.
pub write_table-TableSaved :
    (v : Volume)
    → Ready v
    → (w : Volume) × (write_table v ≡ ok 0 w) × BlocksKept v w × Ready w × TableSaved w
write_table-TableSaved v r =
    let (w, eq, kept, saved) = write_table-BlocksKept v r.coherent.volume r.table r.cipher in
    let head : w.fs_head ≡ v.fs_head = ap (λ y. y.fs_head) kept.rest in
    (
      w,
      eq,
      kept,
      Ready-kept v w head (ap (λ y. y.fs_table) kept.rest) (ap (λ y. y.ciph) kept.rest)
          (Coherent-kept v w head kept.same_size (ap (λ y. y.fs_bitmap) kept.rest)
            (λ c. kept.blocks c 0) r.coherent)
          r,
      saved,
    )

-- What most clients need of it.
pub write_table-Ready :
    (v : Volume) → Ready v → (w : Volume) × (write_table v ≡ ok 0 w) × BlocksKept v w × Ready w
write_table-Ready v r =
    let (w, eq, kept, ready, _) = write_table-TableSaved v r in (w, eq, kept, ready)

All-get_elem? :
    (P : TableEntry → Type 0) (es : List TableEntry) (i : ℕ) (e : TableEntry)
    → All P es
    → get_elem? es i ≡ some e
    → P e
All-get_elem? P [] i e a h = absurd (ground (arith, h))
All-get_elem? P (x ∷ es) zero e a h = subst P (ap (λ o. elim o [ none ↦ x | some y ↦ y ]) h) a.0
All-get_elem? P (x ∷ es) (suc i) e a h = All-get_elem? P es i e a.1 h

pub Ready-clusters :
    (v : Volume) (fid : ℕ) (e : TableEntry)
    → Ready v
    → get_elem? v.fs_table.entrs fid ≡ some e
    → length e.clrs ≡ cluster_per_file
Ready-clusters v fid e r at_fid =
    All-get_elem? (λ x. length x.clrs ≡ cluster_per_file) v.fs_table.entrs fid e r.table.clusters
      at_fid
