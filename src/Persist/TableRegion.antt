-- ===== src/Persist/TableRegion.antt =====
-- dev_write_table stays inside its region.
use fcfs.Base.{
  ℕ, ◌+◌, ◌-◌, ◌*◌, ◌≤◌, ◌≡◌, refl, inr, some, List, [], ◌∷◌, ◌++◌, arith, All, ap, ◌∙◌, length,
  take, take-all, replicate, min, length-append, length-take, length-replicate, le→ltb, ==_refl,
}
use fcfs.Base.Monad.{ok}
use fcfs.Structs.{TableEntry, cluster_per_file}
use fcfs.Volume.{Volume, IsCipher, lblk_sz}
use fcfs.Device.{bytes_at, stored, fwrite, padded, block_pos}
use fcfs.Device.Bytes.{bytes_at-write_outside, bytes_at-written}
use fcfs.Layout.{IsVolume}
use fcfs.Persist.{encode_clrs, encode_entries, encode_table, sizeof_entries, write_table}
use fcfs.Persist.Regions.{BlocksKept, mul_mono}

-- A file table that fits the blocks which the head gives it, in front of the data.
pub record IsTable (v : Volume) : Type 0 where
  pub clusters : All (λ e. length e.clrs ≡ cluster_per_file) v.fs_table.entrs
  pub fits : sizeof_entries (length v.fs_table.entrs) ≤ v.fs_head.tbl_len * lblk_sz v
  pub before_data : v.fs_head.bmp_len + 1 + v.fs_head.tbl_len ≤ v.fs_head.dta_beg

pub length-encode_clrs : (cs : List ℕ) → length (encode_clrs cs) ≡ 2 * length cs
length-encode_clrs [] = refl
length-encode_clrs (c ∷ cs) = omega (arith, length-encode_clrs cs)

length-encode_entries :
    (es : List TableEntry)
    → All (λ e. length e.clrs ≡ cluster_per_file) es
    → length (encode_entries es) ≡ 34 * length es
length-encode_entries [] h = refl
length-encode_entries (e ∷ es) h = omega (
  arith,
  length-append (encode_clrs e.clrs) (encode_entries es),
  length-encode_clrs e.clrs,
  h.0,
  length-encode_entries es h.1,
)

pub length-encode_table :
    (v : Volume)
    → IsTable v
    → length (encode_table v.fs_table) ≡ sizeof_entries (length v.fs_table.entrs)
unfolding encode_table
length-encode_table v is =
    let n : ℕ = length v.fs_table.entrs in
    let zeros : List ℕ = replicate (sizeof_entries n - (8 + 34 * n)) 0 in
    omega (
      arith,
      length-append (encode_entries v.fs_table.entrs) zeros,
      length-encode_entries v.fs_table.entrs is.clusters,
      length-replicate {A = ℕ} (sizeof_entries n - (8 + 34 * n)) 0,
    )

-- the first address of the file table, and the block that is sent there before its encryption
abbrev pub table_pos : Volume → ℕ
table_pos v = lblk_sz v + v.fs_head.bmp_len * lblk_sz v

abbrev pub table_buf : Volume → List ℕ
table_buf v =
    let size : ℕ = sizeof_entries (length v.fs_table.entrs) in
    take size (encode_table v.fs_table) ++ replicate (v.fs_head.tbl_len * lblk_sz v - size) 0

pub length-table_buf :
    (v : Volume) → IsTable v → length (table_buf v) ≡ v.fs_head.tbl_len * lblk_sz v
length-table_buf v is =
    let size : ℕ = sizeof_entries (length v.fs_table.entrs) in
    omega (
      arith,
      length-append (take size (encode_table v.fs_table))
          (replicate (v.fs_head.tbl_len * lblk_sz v - size) 0),
      length-take size (encode_table v.fs_table),
      length-replicate {A = ℕ} (v.fs_head.tbl_len * lblk_sz v - size) 0,
      is.fits,
      length-encode_table v is,
    )

pub table_before_data :
    (v : Volume)
    → IsTable v
    → table_pos v + v.fs_head.tbl_len * lblk_sz v ≤ v.fs_head.dta_beg * lblk_sz v
table_before_data v is = omega (
  arith,
  mul_mono (lblk_sz v) (v.fs_head.bmp_len + 1 + v.fs_head.tbl_len) v.fs_head.dta_beg is.before_data,
)

-- The write fills the region of the table with the encrypted block, and returns 0.
pub write_table-stored :
    (v : Volume)
    → IsVolume v
    → IsTable v
    → IsCipher (v.fs_head.tbl_len * lblk_sz v) v.ciph
    → (coded : List ℕ) × (v.ciph.encrypt (table_buf v) ≡ some coded)
      × (length coded ≡ v.fs_head.tbl_len * lblk_sz v)
      × (write_table v ≡ ok 0 (stored v (table_pos v) coded))
unfolding write_table fwrite padded
write_table-stored v is table cipher =
    let len : ℕ = v.fs_head.tbl_len * lblk_sz v in
    let whole = length-table_buf v table in
    let (coded, enc) = cipher.total (table_buf v) whole in
    let same : length coded ≡ len = cipher.same_length (table_buf v) coded whole enc in
    let all : min (length coded) (v.dev.size - table_pos v) ≡ len =
      omega (arith, is.on_device, table_before_data v table) in
    (
      coded,
      enc,
      same,
      rw
          (
            le→ltb _ _ table.fits,
            le→ltb (length (encode_table v.fs_table)) (sizeof_entries (length v.fs_table.entrs))
                (omega (arith, length-encode_table v table)),
            enc,
            all,
            take-all len coded (omega arith),
            ==_refl,
          )
          refl,
    )

-- The region of the table holds the file table in memory, encrypted.
abbrev pub TableSaved : Volume → Type 0
TableSaved v =
    v.ciph.decrypt (bytes_at v.dev.byte (table_pos v) (v.fs_head.tbl_len * lblk_sz v))
    ≡ some (table_buf v)

-- dev_write_table on a volume in order whose table fits its region returns 0, changes no block of a
-- cluster and saves the table.
pub write_table-BlocksKept :
    (v : Volume)
    → IsVolume v
    → IsTable v
    → IsCipher (v.fs_head.tbl_len * lblk_sz v) v.ciph
    → (w : Volume) × (write_table v ≡ ok 0 w) × BlocksKept v w × TableSaved w
write_table-BlocksKept v is table cipher =
    let (coded, enc, same, eq) = write_table-stored v is table cipher in
    (
      stored v (table_pos v) coded,
      eq,
      record {
        rest = refl;
        same_size = refl;
        blocks = λ cid bid.
            bytes_at-write_outside v.dev.byte (table_pos v) coded (block_pos v cid bid) (lblk_sz v)
              (inr (omega (arith, table_before_data v table)));
      },
      ap v.ciph.decrypt
            (bytes_at-written v.dev.byte (table_pos v) (v.fs_head.tbl_len * lblk_sz v) coded same)
          ∙ cipher.undone (table_buf v) coded (length-table_buf v table) enc,
    )
