-- ===== src/Fmt/Codec.antt =====
-- The bytes of the head and of the file table that the formatter writes, as a mount reads them.
use Prim.Native.Nat.{bit_xor}
use fcfs.Base.{
  ap₂, get_or, length-replicate, false, ℕ, zero, suc, ◌+◌, ◌-◌, ◌^◌, ◌≤◌, ◌<◌, ◌≡◌, refl, ap, ◌∙◌,
  sym, some, List, ◌∷◌, ◌++◌, arith, length, drop, replicate, append_assoc, drop-append,
  length-append, ltb, le→ltb,
}
use fcfs.Base.Bytes.{to_le, from_le, from_le-to_le}
use fcfs.Base.Words.{is_neg}
use fcfs.Base.Xor.{bit_xor_lt}
use fcfs.Structs.{
  sizeof_table, Head, Table, TableEntry, label_length, table_len, cluster_per_file, sizeof_head,
}
use fcfs.Device.{bytes_at}
use fcfs.Device.Bytes.{length-bytes_at}
use fcfs.Mount.{field, head_from, decode_head, decode_clrs, decode_entries, decode_table}
use fcfs.Fmt.{encode_fields, encode_head, label_of, root_table}

-- A head as the C type holds it.
pub record IsHead (h : Head) : Type 0 where
  pub fsid : h.fsid < 2 ^ 32
  pub ctime : h.ctime < 2 ^ 64
  pub atime : h.atime < 2 ^ 64
  pub tbl_cnt : h.tbl_cnt < 2 ^ 32
  pub tbl_len : h.tbl_len < 2 ^ 16
  pub bmp_len : h.bmp_len < 2 ^ 32
  pub clu_sz : h.clu_sz < 2 ^ 16
  pub clu_cnt : h.clu_cnt < 2 ^ 64
  pub blk_sz : h.blk_sz < 2 ^ 16
  pub blk_cnt : h.blk_cnt < 2 ^ 64
  pub phy_blk_sz : h.phy_blk_sz < 2 ^ 16
  pub phy_blk_cnt : h.phy_blk_cnt < 2 ^ 64
  pub dta_beg : h.dta_beg < 2 ^ 32
  pub hashsum : h.hashsum < 2 ^ 64

drop-label :
    (label bs : List ℕ) → length label ≡ label_length → drop label_length (label ++ bs) ≡ bs
drop-label label bs e = ap (λ k. drop k (label ++ bs)) (sym e) ∙ drop-append label bs

length-encode_fields : (mem : ℕ → ℕ) (h : Head) → length (encode_fields mem h) ≡ 93
unfolding encode_fields bytes_at
length-encode_fields mem h = refl

pub length-encode_head :
    (mem : ℕ → ℕ) (label : List ℕ) (h : Head)
    → length label ≡ label_length
    → length (encode_head mem label h) ≡ sizeof_head
unfolding encode_head
length-encode_head mem label h e =
    omega (arith, length-append label (encode_fields mem h), length-encode_fields mem h)

head_from-encode_fields :
    (mem : ℕ → ℕ) (h : Head) (rest : List ℕ)
    → IsHead h
    → head_from (from_le (to_le 4 h.fsid)) (drop 5 (encode_fields mem h ++ rest)) ≡ h
unfolding head_from encode_fields bytes_at
head_from-encode_fields mem h rest is = λ i. record {
  fsid = from_le-to_le 4 h.fsid is.fsid i;
  ctime = from_le-to_le 8 h.ctime is.ctime i;
  atime = from_le-to_le 8 h.atime is.atime i;
  tbl_cnt = from_le-to_le 4 h.tbl_cnt is.tbl_cnt i;
  tbl_len = from_le-to_le 2 h.tbl_len is.tbl_len i;
  bmp_len = from_le-to_le 4 h.bmp_len is.bmp_len i;
  clu_sz = from_le-to_le 2 h.clu_sz is.clu_sz i;
  clu_cnt = from_le-to_le 8 h.clu_cnt is.clu_cnt i;
  blk_sz = from_le-to_le 2 h.blk_sz is.blk_sz i;
  blk_cnt = from_le-to_le 8 h.blk_cnt is.blk_cnt i;
  phy_blk_sz = from_le-to_le 2 h.phy_blk_sz is.phy_blk_sz i;
  phy_blk_cnt = from_le-to_le 8 h.phy_blk_cnt is.phy_blk_cnt i;
  dta_beg = from_le-to_le 4 h.dta_beg is.dta_beg i;
  hashsum = from_le-to_le 8 h.hashsum is.hashsum i;
}

-- A head in memory is read as the head.
pub decode_head-encode_head :
    (mem : ℕ → ℕ) (label : List ℕ) (h : Head) (rest : List ℕ)
    → length label ≡ label_length
    → IsHead h
    → decode_head (encode_head mem label h ++ rest) ≡ h
unfolding decode_head encode_head
decode_head-encode_head mem label h rest e is =
    ap (λ bs. head_from (from_le (to_le 4 h.fsid)) (drop 5 (drop label_length bs)))
      (append_assoc label (encode_fields mem h) rest)
    ∙ ap (λ bs. head_from (from_le (to_le 4 h.fsid)) (drop 5 bs))
        (drop-label label (encode_fields mem h ++ rest) e)
    ∙ head_from-encode_fields mem h rest is

pub length-label_of :
    (mem : ℕ → ℕ) (product : List ℕ)
    → length product ≤ label_length
    → (label : List ℕ) × (label_of mem product ≡ some label) × (length label ≡ label_length)
unfolding label_of
length-label_of mem product short = (
  product ++ bytes_at mem (4 + length product) (label_length - length product),
  rw (le→ltb label_length (length product) short) refl,
  omega (
    arith,
    length-append product (bytes_at mem (4 + length product) (label_length - length product)),
    length-bytes_at mem (4 + length product) (label_length - length product),
  ),
)

-- an entry of a file table with no link, and that of the root directory
abbrev pub no_links : TableEntry
no_links = record { lnk_cnt = 0; clrs = replicate cluster_per_file 0 }

abbrev pub root_link : TableEntry
root_link = record { lnk_cnt = 1; clrs = replicate cluster_per_file 0 }

-- The file table of a formatted drive: the root directory alone.
abbrev pub root_only : Head → Table
root_only h = record {
  hashsum = bit_xor sizeof_table h.ctime;
  entrs = root_link ∷ replicate (table_len - 1) no_links;
}

drop-zeros : (k j : ℕ) → drop k (replicate j 0) ≡ replicate {A = ℕ} (j - k) 0
drop-zeros zero j = ap (λ n. replicate {A = ℕ} n 0) {x = j} {y = j - 0} (omega arith)
drop-zeros (suc k) zero = ap (λ n. replicate {A = ℕ} n 0) {x = 0} {y = 0 - suc k} (omega arith)
drop-zeros (suc k) (suc j) =
    drop-zeros k j ∙ ap (λ n. replicate {A = ℕ} n 0) {x = j - k} {y = suc j - suc k} (omega arith)

field-zeros : (k j : ℕ) → field k (replicate j 0) ≡ 0
field-zeros zero j = refl
field-zeros (suc k) zero = refl
field-zeros (suc k) (suc j) = omega (arith, field-zeros k j)

decode_clrs-zeros : (m j : ℕ) → decode_clrs m (replicate j 0) ≡ replicate m 0
decode_clrs-zeros zero j = refl
decode_clrs-zeros (suc m) j =
    ap₂ ◌∷◌ (field-zeros 2 j) (ap (decode_clrs m) (drop-zeros 2 j) ∙ decode_clrs-zeros m (j - 2))

first-zero : (j : ℕ) → get_or (replicate {A = ℕ} j 0) 0 0 ≡ 0
first-zero zero = refl
first-zero (suc j) = refl

decode_entries-zeros : (m j : ℕ) → decode_entries m (replicate j 0) ≡ replicate m no_links
unfolding decode_entries
decode_entries-zeros zero j = refl
decode_entries-zeros (suc m) j =
    let clrs : decode_clrs cluster_per_file (drop 2 (replicate j 0))
        ≡ replicate cluster_per_file 0 =
      ap (decode_clrs cluster_per_file) (drop-zeros 2 j)
      ∙ decode_clrs-zeros cluster_per_file (j - 2) in
    let later : decode_entries m (drop 32 (drop 2 (replicate j 0))) ≡ replicate m no_links =
      ap (λ bs. decode_entries m (drop 32 bs)) (drop-zeros 2 j)
      ∙ ap (decode_entries m) (drop-zeros 32 (j - 2))
      ∙ decode_entries-zeros m (j - 2 - 32) in
    λ i. record { lnk_cnt = first-zero j i; clrs = clrs i } ∷ later i

root_entries :
    (m j : ℕ) → decode_entries (suc m) (1 ∷ replicate (suc j) 0) ≡ root_link ∷ replicate m no_links
unfolding decode_entries
root_entries m j =
    let clrs : decode_clrs cluster_per_file (replicate j 0) ≡ replicate cluster_per_file 0 =
      decode_clrs-zeros cluster_per_file j in
    let later : decode_entries m (drop 32 (replicate j 0)) ≡ replicate m no_links =
      ap (decode_entries m) (drop-zeros 32 j) ∙ decode_entries-zeros m (j - 32) in
    λ i. record { lnk_cnt = 1; clrs = clrs i } ∷ later i

-- The table that the formatter writes is read as the root directory alone.
pub decode_table-root_table :
    (h : Head) (n : ℕ)
    → h.ctime < 2 ^ 64
    → sizeof_table ≤ n
    → n < 2 ^ 31
    → (bs : List ℕ) × (root_table h n ≡ some bs) × (length bs ≡ n) × (decode_table bs ≡ root_only h)
unfolding root_table decode_table
decode_table-root_table h n time big small =
    let sum : ℕ = bit_xor sizeof_table h.ctime in
    let sign : is_neg n ≡ false = ground arith in
    let room : ltb n 12 ≡ false = ground arith in
    let j : ℕ = n - 10 in
    let zeros : replicate {A = ℕ} (n - 9) 0 ≡ replicate (suc j) 0 =
      ap (λ k. replicate {A = ℕ} k 0) {x = n - 9} {y = suc j} (omega arith) in
    (
      to_le 8 sum ++ (1 ∷ replicate (n - 9) 0),
      rw (sign, room) refl,
      omega (arith, length-replicate {A = ℕ} (n - 9) 0),
      λ i. record {
        hashsum = from_le-to_le 8 sum (bit_xor_lt 64 sizeof_table h.ctime (omega arith) time) i;
        entrs =
            (ap (λ bs. decode_entries table_len (1 ∷ bs)) zeros ∙ root_entries (table_len - 1) j) i;
      },
    )
