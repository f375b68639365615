-- ===== src/Mount/Codec.antt =====
-- The byte layouts of the head and of the file table, written and read.
use fcfs.Base.{
  ℕ, ◌+◌, ◌^◌, ◌<◌, ◌≡◌, refl, ap, ap₂, ◌∙◌, sym, List, [], ◌∷◌, ◌++◌, arith, All, length, drop,
  drop-append, replicate, append_assoc, ◌*◌, ◌-◌,
}
use fcfs.Base.Bytes.{from_le-to_le}
use fcfs.Structs.{Table, TableEntry, cluster_per_file, table_len, sizeof_table_entry}
use fcfs.Persist.{encode_clrs, encode_entries, encode_table, sizeof_entries}
use fcfs.Persist.TableRegion.{length-encode_clrs}
use fcfs.Mount.{decode_clrs, decode_entries, decode_table}

-- An entry as the C type holds it.
pub record IsEntry (e : TableEntry) : Type 0 where
  pub links : e.lnk_cnt < 256
  pub count : length e.clrs ≡ cluster_per_file
  pub clusters : All (λ c. c < 2 ^ 16) e.clrs

decode-encode_clrs :
    (cs rest : List ℕ)
    → All (λ c. c < 2 ^ 16) cs
    → decode_clrs (length cs) (encode_clrs cs ++ rest) ≡ cs
decode-encode_clrs [] rest h = refl
decode-encode_clrs (c ∷ cs) rest h =
    ap₂ ◌∷◌ (from_le-to_le 2 c h.0) (decode-encode_clrs cs rest h.1)

decode-encode_entries :
    (es : List TableEntry) (rest : List ℕ)
    → All IsEntry es
    → decode_entries (length es) (encode_entries es ++ rest) ≡ es
unfolding decode_entries
decode-encode_entries [] rest h = refl
decode-encode_entries (e ∷ es) rest h =
    let split : (encode_clrs e.clrs ++ encode_entries es) ++ rest
        ≡ encode_clrs e.clrs ++ (encode_entries es ++ rest) =
      append_assoc (encode_clrs e.clrs) (encode_entries es) rest in
    let clrs : decode_clrs cluster_per_file ((encode_clrs e.clrs ++ encode_entries es) ++ rest)
        ≡ e.clrs =
      ap (decode_clrs cluster_per_file) split
      ∙ ap (λ n. decode_clrs n (encode_clrs e.clrs ++ (encode_entries es ++ rest))) (sym h.0.count)
      ∙ decode-encode_clrs e.clrs (encode_entries es ++ rest) h.0.clusters in
    let size : length (encode_clrs e.clrs) ≡ 32 =
      omega (arith, length-encode_clrs e.clrs, h.0.count) in
    let later : drop 32 ((encode_clrs e.clrs ++ encode_entries es) ++ rest)
        ≡ encode_entries es ++ rest =
      ap (drop 32) split
      ∙ ap (λ n. drop n (encode_clrs e.clrs ++ (encode_entries es ++ rest))) (sym size)
      ∙ drop-append (encode_clrs e.clrs) (encode_entries es ++ rest) in
    λ i.
      record { lnk_cnt = e.lnk_cnt; clrs = clrs i }
      ∷ (ap (decode_entries (length es)) later ∙ decode-encode_entries es rest h.1) i

-- A file table of the driver's length comes back from its bytes.
pub decode-encode_table :
    (t : Table) (rest : List ℕ)
    → t.hashsum < 2 ^ 64
    → length t.entrs ≡ table_len
    → All IsEntry t.entrs
    → decode_table (encode_table t ++ rest) ≡ t
unfolding decode_table encode_table
decode-encode_table t rest small count h =
    let zeros : List ℕ =
      replicate (sizeof_entries (length t.entrs) - (8 + sizeof_table_entry * length t.entrs)) 0 in
    let entrs : decode_entries table_len ((encode_entries t.entrs ++ zeros) ++ rest) ≡ t.entrs =
      ap (decode_entries table_len) (append_assoc (encode_entries t.entrs) zeros rest)
      ∙ ap (λ n. decode_entries n (encode_entries t.entrs ++ (zeros ++ rest))) (sym count)
      ∙ decode-encode_entries t.entrs (zeros ++ rest) h in
    λ i. record { hashsum = from_le-to_le 8 t.hashsum small i; entrs = entrs i }
