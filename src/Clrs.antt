-- ===== src/Clrs.antt =====
-- fcfs/src/dev/table.c: the clusters of a file, in the 13 first-stage numbers of its table entry
-- and in a second-stage cluster, behind the cache `clrs_cache`. The list `s1_cl` holds the words of
-- the buffer that have a value. Behind them a loaded buffer has words that were never read from the
-- device; an access there is a fault.
pub mod FirstStage
pub mod Cached
pub mod Known
pub mod Add
pub mod SecondBlocks
pub mod Second
use fcfs.Base.{
  ℕ, zero, suc, ◌+◌, ◌-◌, ◌*◌, ◌/◌, Bool, not, ◌&&◌, List, [], ◌∷◌, ◌++◌, ltb, ◌==◌, if◌then◌else◌,
  length, take, drop, get_elem?, set, replicate,
}
use fcfs.Base.Bytes.{to_le, from_le}
use fcfs.Base.Monad.{◌>>=◌, ◌>>◌, pure, get, need, modify}
use fcfs.Base.Words.{minus_one, u16, u32}
use fcfs.Structs.{TableEntry, cluster_per_file, bloks_per_cluster}
use fcfs.Volume.{Volume, ClrsCache, M, lblk_sz}
use fcfs.Device.{noneed, read_block, write_block}
use fcfs.Persist.{write_table}
use fcfs.Clusters.{full_free_cluster, clust_claim}

-- FCFS_CLUSTER_PER_FILE - 3
abbrev pub first_stage : ℕ
first_stage = cluster_per_file - 3

abbrev pub with_cache : Volume → ClrsCache → Volume
with_cache v c = record v { clrs_cache = c }

abbrev pub set_cache : (ClrsCache → ClrsCache) → M (Unit {0})
set_cache f = modify (λ v. with_cache v (f v.clrs_cache))

-- `&args->fs_table->entrs[fid]`
abbrev pub entry : ℕ → M TableEntry
entry fid = do v ← get; need (get_elem? v.fs_table.entrs fid)

-- `tentry->clrs[k] = id` in 16 bits
abbrev pub set_clr : ℕ → ℕ → ℕ → M (Unit {0})
set_clr fid k id = do
  e ← entry fid
  modify (λ v. record v {
    fs_table = record v.fs_table {
      entrs = set v.fs_table.entrs fid (record e { clrs = set e.clrs k (u16 id) });
    };
  })

-- dev_tbl_load_fir on the first-stage numbers of the entry: those that are cached
unfoldable pub first_addrs : ℕ → List ℕ → List ℕ
first_addrs fid [] = []
first_addrs fid (cid ∷ cs) =
    let rest = first_addrs fid cs in
    if not (fid == 0) && cid == 0 then [] else if fid == 0 then cid ∷ [] else cid ∷ rest

-- The array `s0_cl` with its front overwritten.
abbrev pub overwrite : List ℕ → List ℕ → List ℕ
overwrite xs old = xs ++ drop (length xs) old

-- tbl_clrs_reinit
pub reinit : ℕ → M (Unit {0})
reinit fid = set_cache (λ c. record {
  fid = fid;
  s0_cl = c.s0_cl;
  s0_cnt = 0;
  s1_cl = if c.s1_cnt == 0 then c.s1_cl else [];
  s1_cnt = 0;
})

-- The loop over blocks `i` to `i + n - 1` of dev_tbl_load_sec.
pub load_blocks : ℕ → ℕ → ℕ → M (List ℕ)
load_blocks zero cid i = pure []
load_blocks (suc n) cid i = do
  b ← read_block cid i noneed
  bs ← need b
  rest ← load_blocks n cid (i + 1)
  pure (bs ++ rest)

abbrev pub words : ℕ → List ℕ → List ℕ
words zero bs = []
words (suc n) bs = from_le (take 4 bs) ∷ words n (drop 4 bs)

-- dev_tbl_load_sec: the loop reads blocks 1 to 6, so the words of the seventh are never filled in.
pub load_sec : ℕ → M ℕ
load_sec cid = do
  v ← get
  buf ← load_blocks (bloks_per_cluster - 2) cid 1
  let count = from_le (take 4 buf)
  let addrs = words (((bloks_per_cluster - 2) * lblk_sz v - 4) / 4) (drop 4 buf)
  set_cache (λ c. record c { s1_cl = addrs; s1_cnt = count })
  pure count

-- The loop over blocks `i` to `i + n - 1` of dev_tbl_save_sec.
pub save_blocks : ℕ → ℕ → ℕ → List ℕ → M (Unit {0})
save_blocks zero cid i buf = pure tt
save_blocks (suc n) cid i buf = do
  v ← get
  res ← write_block cid i (take (lblk_sz v) buf) (lblk_sz v) noneed
  save_blocks n cid (i + 1) (drop (lblk_sz v) buf)

abbrev pub word_bytes : List ℕ → List ℕ
word_bytes [] = []
word_bytes (w ∷ ws) = to_le 4 w ++ word_bytes ws

-- dev_tbl_save_sec
pub save_sec : ℕ → M ℕ
save_sec cid = do
  v ← get
  let buf = to_le 4 v.clrs_cache.s1_cnt ++ word_bytes v.clrs_cache.s1_cl
  save_blocks (bloks_per_cluster - 2) cid 1 buf
  pure 0

-- dev_tbl_claim_sec_addr
pub claim_sec_addr : ℕ → M ℕ
claim_sec_addr fuel = do
  v ← get
  cid ← full_free_cluster fuel 0
  res ← clust_claim cid
  let zeros = replicate (((bloks_per_cluster - 1) * lblk_sz v - 4) / 4) 0
  set_cache (λ c. record c { s1_cl = zeros; s1_cnt = 0 })
  pure cid

abbrev pub when : Bool → M (Unit {0}) → M (Unit {0})
when b m = if b then m else pure tt

-- The first stage of dev_tbl_clrs_cnt.
unfoldable pub load_first : ℕ → M (Unit {0})
load_first fid = do
  e ← entry fid
  let addrs = first_addrs fid (take first_stage e.clrs)
  set_cache (λ c. record c { s0_cl = overwrite addrs c.s0_cl; s0_cnt = length addrs })

-- dev_tbl_clrs_cnt
unfoldable pub clrs_cnt : ℕ → M ℕ
clrs_cnt fid = do
  v ← get
  when (not (v.clrs_cache.fid == fid)) (reinit fid)
  e ← entry fid
  v ← get
  when (v.clrs_cache.s0_cnt == 0) (load_first fid)
  cid ← need (get_elem? e.clrs first_stage)
  v ← get
  when (not (cid == 0) && v.clrs_cache.s1_cnt == 0) (load_sec cid >> pure tt)
  v ← get
  pure (u32 (v.clrs_cache.s0_cnt + v.clrs_cache.s1_cnt))

-- ((lblk_sz - uint_len) / (double)uint_len) * (FCFS_BLOKS_PER_CLUSTER - 1)
abbrev pub s1_len : Volume → ℕ
s1_len v = (lblk_sz v - 4) * (bloks_per_cluster - 1) / 4

-- dev_tbl_clrs_get
unfoldable pub clrs_get : ℕ → ℕ → M ℕ
clrs_get fid id = do
  v ← get
  when (not (v.clrs_cache.fid == fid)) (clrs_cnt fid >> pure tt)
  v ← get
  let c = v.clrs_cache
  if ltb id first_stage
      then (if ltb id c.s0_cnt then need (get_elem? c.s0_cl id) else pure minus_one)
      else if ltb id (s1_len v)
      then (if c.s1_cnt == 0 then pure minus_one else need (get_elem? c.s1_cl (id - first_stage)))
      else pure minus_one

-- dev_tbl_clrs_add; the fuel is that of the search for a free cluster.
pub clrs_add : ℕ → ℕ → ℕ → M ℕ
clrs_add fuel fid id = do
  count ← clrs_cnt fid
  v ← get
  let c = v.clrs_cache
  if ltb count first_stage
      then (do
        set_clr fid c.s0_cnt id
        set_cache (λ c. record c { s0_cl = set c.s0_cl c.s0_cnt id; s0_cnt = c.s0_cnt + 1 })
        res ← write_table
        pure 0)
      else if ltb count (s1_len v)
      then (do
        when (c.s1_cnt == 0)
            (do cid ← claim_sec_addr fuel; set_clr fid first_stage cid; res ← write_table; pure tt)
        v ← get
        k ← need (get_elem? v.clrs_cache.s1_cl v.clrs_cache.s1_cnt)
        set_cache (λ c. record c { s1_cl = set c.s1_cl c.s1_cnt id; s1_cnt = c.s1_cnt + 1 })
        e ← entry fid
        sec ← need (get_elem? e.clrs first_stage)
        res ← save_sec sec
        pure 0)
      else pure minus_one

-- dev_tbl_clrs_set, which does not look at the file number. In the second stage the index is not reduced by the size of the first.
pub clrs_set : ℕ → ℕ → M ℕ
clrs_set id val = do
  v ← get
  let c = v.clrs_cache
  if ltb id first_stage
      then (if ltb id c.s0_cnt
          then (do set_cache (λ c. record c { s0_cl = set c.s0_cl id val }); pure 0)
          else pure minus_one)
      else if ltb id (s1_len v)
      then (if c.s1_cnt == 0 then pure minus_one else (do
        k ← need (get_elem? c.s1_cl id)
        set_cache (λ c. record c { s1_cl = set c.s1_cl id val })
        pure 0))
      else pure minus_one
