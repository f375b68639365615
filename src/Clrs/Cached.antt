-- ===== src/Clrs/Cached.antt =====
-- dev_tbl_clrs_cnt and dev_tbl_clrs_get for a file without a second stage: what the cache holds
-- once the file's entry has been read.
use fcfs.Base.{
  ℕ, zero, suc, ◌+◌, ◌≤◌, ◌<◌, ◌≡◌, ◌≢◌, refl, true, false, ◌⊎◌, ==_refl, some, List, [], ◌∷◌, ◌++◌,
  arith, ◌==◌, ltb, if◌then◌else◌, length, get_elem?, get_elem?-some, get_elem?-length, take, drop,
  length-append, length-drop,
}
use fcfs.Base.Monad.{ok}
use fcfs.Base.Words.{u32}
use fcfs.Structs.{TableEntry}
use fcfs.Volume.{Volume, ClrsCache}
use fcfs.Clrs.{when, first_stage, overwrite, with_cache, reinit, load_first, clrs_cnt, clrs_get}
use fcfs.Clrs.FirstStage.{
  clusters, AtPlace, length-clusters, first_addrs-AtPlace, get_elem?-take, clusters-end,
}

-- A file whose entry has no second-stage cluster, when the cache is that of another file. The array
-- `s0_cl` has an element for every number of the first stage.
pub record OneStage (v : Volume) (fid : ℕ) (e : TableEntry) : Type 0 where
  pub file : fid ≢ 0
  pub entry : get_elem? v.fs_table.entrs fid ≡ some e
  pub second : get_elem? e.clrs first_stage ≡ some 0
  pub other : (v.clrs_cache.fid == fid) ≡ false
  pub space : first_stage ≤ length v.clrs_cache.s0_cl

-- The cache holds the clusters `ids` of the file.
pub record Cached (fid : ℕ) (ids : List ℕ) (c : ClrsCache) : Type 0 where
  pub file : c.fid ≡ fid
  pub count : c.s0_cnt ≡ length ids
  pub few : length ids ≤ first_stage
  pub space : first_stage ≤ length c.s0_cl
  pub second : c.s1_cnt ≡ 0
  pub addrs : (i a : ℕ) → get_elem? ids i ≡ some a → get_elem? c.s0_cl i ≡ some a

pub get_elem?-append :
    (xs ys : List ℕ) (i a : ℕ) → get_elem? xs i ≡ some a → get_elem? (xs ++ ys) i ≡ some a
get_elem?-append [] ys i a h = ground (arith, h)
get_elem?-append (x ∷ xs) ys zero a h = h
get_elem?-append (x ∷ xs) ys (suc i) a h = get_elem?-append xs ys i a h

-- The cache once the entry has been read.
loaded : ℕ → List ℕ → ClrsCache → ClrsCache
loaded fid ids c = record {
  fid = fid;
  s0_cl = overwrite ids c.s0_cl;
  s0_cnt = length ids;
  s1_cl = if c.s1_cnt == 0 then c.s1_cl else [];
  s1_cnt = 0;
}

loaded-Cached :
    (fid : ℕ) (ids : List ℕ) (c : ClrsCache)
    → length ids ≤ first_stage
    → first_stage ≤ length c.s0_cl
    → Cached fid ids (loaded fid ids c)
unfolding loaded
loaded-Cached fid ids c few space = record {
  space = omega (
    arith,
    length-append ids (drop (length ids) c.s0_cl),
    length-drop (length ids) c.s0_cl,
    space,
  );
  second = refl;
  file = refl;
  count = refl;
  few = few;
  addrs = get_elem?-append ids (drop (length ids) c.s0_cl);
}

-- The cache behind tbl_clrs_reinit.
emptied : ℕ → ClrsCache → ClrsCache
emptied fid c = record {
  fid = fid;
  s0_cl = c.s0_cl;
  s0_cnt = 0;
  s1_cl = if c.s1_cnt == 0 then c.s1_cl else [];
  s1_cnt = 0;
}

load_first-loaded :
    (v : Volume) (fid : ℕ) (e : TableEntry)
    → get_elem? v.fs_table.entrs fid ≡ some e
    → load_first fid v
      ≡ ok tt (
          with_cache v (record v.clrs_cache {
            s0_cl = overwrite (clusters fid e) v.clrs_cache.s0_cl;
            s0_cnt = length (clusters fid e);
          }))
unfolding load_first
load_first-loaded v fid e at_fid = rw at_fid refl

clrs_cnt-loaded :
    (v : Volume) (fid : ℕ) (e : TableEntry)
    → OneStage v fid e
    → clrs_cnt fid v
      ≡ ok (length (clusters fid e)) (with_cache v (loaded fid (clusters fid e) v.clrs_cache))
unfolding clrs_cnt reinit emptied loaded
clrs_cnt-loaded v fid e one =
    let few : u32 (length (clusters fid e) + 0) ≡ length (clusters fid e) =
      omega (arith, length-clusters fid e) in
    rw
      (
        one.other,
        one.entry,
        when,
        load_first-loaded (with_cache v (emptied fid v.clrs_cache)) fid e one.entry,
        one.second,
        few,
      )
      refl

pub clrs_get-Cached :
    (v : Volume) (fid : ℕ) (ids : List ℕ) (i a : ℕ)
    → Cached fid ids v.clrs_cache
    → get_elem? ids i ≡ some a
    → clrs_get fid i v ≡ ok a v
unfolding clrs_get
clrs_get-Cached v fid ids i a c at_i =
    let inside = get_elem?-length ids i a at_i in
    let small : ltb i first_stage ≡ true = ground (arith, inside, c.few) in
    let counted : ltb i v.clrs_cache.s0_cnt ≡ true = ground (arith, inside, c.count) in
    rw (c.file, ==_refl fid, when, small, counted, c.addrs i a at_i) refl

-- dev_tbl_clrs_cnt for a file other than 0 whose entry has no second-stage cluster, when the cache
-- is another file's and its array has room for the first stage: it ends, changes nothing but the
-- cache, and returns the number of clusters in the entry before the first 0, 13 at most. Behind it
-- dev_tbl_clrs_get with an index below that number ends in the same state with the entry's number
-- at that index, which is not 0.
pub clrs_cnt-clrs_get :
    (v : Volume) (fid : ℕ) (e : TableEntry) (i : ℕ)
    → OneStage v fid e
    → i < length (clusters fid e)
    → (w : Volume) × (a : ℕ) × (clrs_cnt fid v ≡ ok (length (clusters fid e)) w)
      × (w ≡ with_cache v w.clrs_cache)
      × (length (clusters fid e) ≤ first_stage)
      × ((length (clusters fid e) ≡ length (take first_stage e.clrs))
          ⊎ (get_elem? e.clrs (length (clusters fid e)) ≡ some 0))
      × (clrs_get fid i w ≡ ok a w)
      × AtPlace e.clrs i a
clrs_cnt-clrs_get v fid e i one small =
    let (a, at_i) = get_elem?-some (clusters fid e) i small in
    let w : Volume = with_cache v (loaded fid (clusters fid e) v.clrs_cache) in
    let c = loaded-Cached fid (clusters fid e) v.clrs_cache (length-clusters fid e) one.space in
    let (place, id) = first_addrs-AtPlace fid (take first_stage e.clrs) i a one.file at_i in
    (
      w,
      a,
      clrs_cnt-loaded v fid e one,
      refl,
      length-clusters fid e,
      clusters-end fid e one.file,
      clrs_get-Cached w fid (clusters fid e) i a c at_i,
      (get_elem?-take first_stage e.clrs i a place, id),
    )

-- What a client of the two calls needs.
pub clrs_cnt-Cached :
    (v : Volume) (fid : ℕ) (e : TableEntry)
    → OneStage v fid e
    → (c : ClrsCache) × (clrs_cnt fid v ≡ ok (length (clusters fid e)) (with_cache v c))
      × Cached fid (clusters fid e) c
clrs_cnt-Cached v fid e one = (
  loaded fid (clusters fid e) v.clrs_cache,
  clrs_cnt-loaded v fid e one,
  loaded-Cached fid (clusters fid e) v.clrs_cache (length-clusters fid e) one.space,
)
