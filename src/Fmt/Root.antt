-- ===== src/Fmt/Root.antt =====
-- The root directory of a new file system.
use fcfs.Base.{ℕ, ◌+◌, ◌-◌, ◌≤◌, ◌≡◌, refl, ap, ◌∙◌, List, [], ◌∷◌, map, replicate}
use fcfs.Base.Monad.{ok}
use fcfs.Structs.{BlkInfo, TableEntry, sizeof_block_list}
use fcfs.Volume.{Volume, ClrsCache, lblk_sz}
use fcfs.Device.{at, block_pos, get_blocks, blocks_from}
use fcfs.Device.Blocks.{InVolume}
use fcfs.Ctable.{read_ctable}
use fcfs.Ctable.View.{table_of, table_of-eq, read_ctable-table_of}
use fcfs.Clrs.{clrs_cnt, clrs_get, load_first, first_addrs, with_cache}
use fcfs.Seq.{sort, pass}
use fcfs.FileSeq.{read_seq, collect, cluster_links}
use fcfs.Fmt.{numbered_free}
use fcfs.Fmt.Codec.{root_link}

-- The cache of cluster numbers when the driver starts, and after a look at the root.
abbrev pub no_clusters : ClrsCache
no_clusters = record { fid = 0; s0_cl = replicate 13 0; s0_cnt = 0; s1_cl = []; s1_cnt = 0 }

abbrev pub root_cluster : ClrsCache
root_cluster = record { fid = 0; s0_cl = replicate 13 0; s0_cnt = 1; s1_cl = []; s1_cnt = 0 }

-- the links to the blocks of the root
abbrev pub root_links : List BlkInfo
root_links =
    map (λ bid. record { cid = 0; bid = bid; num = bid - 1 }) (1 ∷ 2 ∷ 3 ∷ 4 ∷ 5 ∷ 6 ∷ 7 ∷ [])

-- A volume with the root of a new file system, at the start of the driver.
pub record HasRoot (v : Volume) (es : List TableEntry) (sum : ℕ) : Type 0 where
  pub entrs : v.fs_table.entrs ≡ root_link ∷ es
  pub cache : v.clrs_cache ≡ no_clusters
  pub owners : table_of v 0 ≡ record { hashsum = sum; entrs = numbered_free 0 7 }
  pub block : InVolume v 0 0
  pub fits : sizeof_block_list ≤ lblk_sz v

clrs_cnt-root :
    (v : Volume) (es : List TableEntry) (sum : ℕ)
    → HasRoot v es sum
    → clrs_cnt 0 v ≡ ok 1 (with_cache v root_cluster)
unfolding clrs_cnt load_first first_addrs
clrs_cnt-root v es sum is = rw (is.cache, is.entrs) refl

clrs_get-root : (v : Volume) → v.clrs_cache ≡ root_cluster → clrs_get 0 0 v ≡ ok 0 v
unfolding clrs_get
clrs_get-root v e = rw e refl

read_ctable-root :
    (v : Volume) (es : List TableEntry) (sum : ℕ)
    → HasRoot v es sum
    → let u = with_cache v root_cluster in
      read_ctable 0 u
      ≡ ok
          (record { hashsum = sum; entrs = numbered_free 0 7 })
          (at u (block_pos v 0 0 + lblk_sz v))
read_ctable-root v es sum is =
    let u : Volume = with_cache v root_cluster in
    let block : InVolume u 0 0 = record {
      nonneg = is.block.nonneg;
      addressed = is.block.addressed;
      inside = is.block.inside;
    } in
    let table : table_of u 0 ≡ record { hashsum = sum; entrs = numbered_free 0 7 } =
      table_of-eq v u 0 refl refl ∙ is.owners in
    read_ctable-table_of u 0 block is.fits
    ∙ ap (λ t. ok t (at u (block_pos v 0 0 + lblk_sz v))) table

-- dev_get_file_seq of the root, up to the cache: the seven blocks of data of cluster 0.
pub read_seq-root :
    (v : Volume) (es : List TableEntry) (sum : ℕ)
    → HasRoot v es sum
    → read_seq 0 v ≡ ok root_links (at (with_cache v root_cluster) (block_pos v 0 0 + lblk_sz v))
unfolding read_seq collect cluster_links get_blocks blocks_from sort pass
read_seq-root v es sum is =
    rw
      (
        clrs_cnt-root v es sum is,
        clrs_get-root (with_cache v root_cluster) refl,
        read_ctable-root v es sum is,
      )
      refl
