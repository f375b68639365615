-- ===== src/Clrs/Known.antt =====
-- dev_tbl_clrs_cnt for a file without a second stage, whoever's the cache is.
use fcfs.Base.{
  ℕ, ◌+◌, ◌≤◌, ◌≡◌, refl, ap, subst, ◌∙◌, false, some, List, arith, ◌==◌, ==_refl, length,
  get_elem?,
}
use fcfs.Base.Monad.{ok}
use fcfs.Base.Words.{u32}
use fcfs.Structs.{TableEntry}
use fcfs.Volume.{Volume, ClrsCache}
use fcfs.Clrs.{when, first_stage, with_cache, clrs_cnt}
use fcfs.Clrs.FirstStage.{clusters}
use fcfs.Clrs.Cached.{OneStage, Cached, clrs_cnt-Cached}

-- The cache lists the clusters `ids` of a file, one at least, and the file's entry has no second
-- stage.
pub record Listed (v : Volume) (fid : ℕ) (e : TableEntry) (ids : List ℕ) : Type 0 where
  pub cached : Cached fid ids v.clrs_cache
  pub some_id : 1 ≤ length ids
  pub at_fid : get_elem? v.fs_table.entrs fid ≡ some e
  pub no_second : get_elem? e.clrs first_stage ≡ some 0

pub clrs_cnt-Listed :
    (v : Volume) (fid : ℕ) (e : TableEntry) (ids : List ℕ)
    → Listed v fid e ids
    → clrs_cnt fid v ≡ ok (length ids) v
unfolding clrs_cnt
clrs_cnt-Listed v fid e ids l =
    let c = l.cached in
    let counted : (v.clrs_cache.s0_cnt == 0) ≡ false = ground (arith, c.count, l.some_id) in
    let sum : u32 (v.clrs_cache.s0_cnt + v.clrs_cache.s1_cnt) ≡ length ids =
      omega (arith, c.count, c.second, c.few) in
    rw (c.file, ==_refl fid, when, l.at_fid, counted, l.no_second, sum) refl

-- The clusters of a file, when its entry has no second stage: those that the cache lists, or else,
-- when the cache is another file's, those of the entry.
pub data Known (v : Volume) (fid : ℕ) (e : TableEntry) (ids : List ℕ) : Type 0 where
  warm : Listed v fid e ids → Known v fid e ids
  cold : OneStage v fid e → clusters fid e ≡ ids → 1 ≤ length ids → Known v fid e ids

-- dev_tbl_clrs_cnt changes the cache only, which then lists them.
pub clrs_cnt-Known :
    (v : Volume) (fid : ℕ) (e : TableEntry) (ids : List ℕ)
    → Known v fid e ids
    → (c : ClrsCache) × (clrs_cnt fid v ≡ ok (length ids) (with_cache v c))
      × Listed (with_cache v c) fid e ids
clrs_cnt-Known v fid e ids (warm l) = (v.clrs_cache, clrs_cnt-Listed v fid e ids l, l)
clrs_cnt-Known v fid e ids (cold one same some_id) =
    let (c, eq, cached) = clrs_cnt-Cached v fid e one in
    (
      c,
      eq ∙ ap (λ l. ok (length l) (with_cache v c)) same,
      record {
        cached = subst (λ l. Cached fid l c) same cached;
        some_id = some_id;
        at_fid = one.entry;
        no_second = one.second;
      },
    )

pub Known-at_fid :
    (v : Volume) (fid : ℕ) (e : TableEntry) (ids : List ℕ)
    → Known v fid e ids
    → get_elem? v.fs_table.entrs fid ≡ some e
Known-at_fid v fid e ids (warm l) = l.at_fid
Known-at_fid v fid e ids (cold one same some_id) = one.entry
