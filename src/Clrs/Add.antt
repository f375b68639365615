-- ===== src/Clrs/Add.antt =====
-- dev_tbl_clrs_add in the first stage, for a file whose clusters the cache lists.
use fcfs.Base.{
  ℕ, ◌+◌, ◌<◌, ◌≡◌, refl, ap, ◌∙◌, ◌≢◌, sym, true, inl, inr, some, List, [], ◌∷◌, ◌++◌, arith, ltb,
  length, length-append, length-set, get_elem?, get_elem?-length, get_elem?-snoc,
  get_elem?-set_here, get_elem?-set_other, set,
}
use fcfs.Base.Monad.{ok}
use fcfs.Base.Words.{u16}
use fcfs.Structs.{TableEntry, cluster_per_file}
use fcfs.Volume.{Volume, ClrsCache}
use fcfs.Device.Blocks.{raw}
use fcfs.Clusters.Coherent.{Coherent-kept}
use fcfs.Clusters.Ready.{
  Ready, Ready-kept, Ready-with_entry, Ready-clusters, write_table-Ready, with_entry,
}
use fcfs.Clrs.{first_stage, with_cache, clrs_cnt, clrs_get, clrs_add}
use fcfs.Clrs.Cached.{Cached, clrs_get-Cached}
use fcfs.Clrs.Known.{Listed, clrs_cnt-Listed}

-- The cache behind dev_tbl_clrs_add.
abbrev appended : ClrsCache → ℕ → ℕ → ClrsCache
appended c n id = record c { s0_cl = set c.s0_cl n id; s0_cnt = n + 1 }

appended-Cached :
    (fid : ℕ) (ids : List ℕ) (c : ClrsCache) (id : ℕ)
    → length ids < first_stage
    → Cached fid ids c
    → Cached fid (ids ++ id ∷ []) (appended c (length ids) id)
appended-Cached fid ids c id few k = record {
  file = k.file;
  count = omega (arith, length-append ids (id ∷ []));
  few = omega (arith, few, length-append ids (id ∷ []));
  space = omega (arith, length-set c.s0_cl (length ids) id, k.space);
  second = k.second;
  addrs = λ i a h. elim (get_elem?-snoc ids id i a h) [
    | inl (last, same) ↦
        ap (get_elem? (set c.s0_cl (length ids) id)) last
        ∙ get_elem?-set_here c.s0_cl (length ids) id (omega (arith, k.space, few))
        ∙ ap some same
    | inr (before, at_i) ↦
        get_elem?-set_other c.s0_cl (length ids) i id (λ e. absurd (omega (arith, e, before)))
        ∙ k.addrs i a at_i
  ];
}

-- `tentry->clrs[n] = id`
abbrev pub entry_with : TableEntry → ℕ → ℕ → TableEntry
entry_with e n id = record e { clrs = set e.clrs n (u16 id) }

-- What the call leaves: one cluster more in the cache and in the entry, and every other entry and
-- every block kept.
pub record Added (v : Volume) (fid : ℕ) (e : TableEntry) (ids : List ℕ) (w : Volume) : Type 0 where
  pub ready : Ready w
  pub listed : Listed w fid e ids
  pub other_entries :
      (k : ℕ) → k ≢ fid → get_elem? w.fs_table.entrs k ≡ get_elem? v.fs_table.entrs k
  pub blocks : (c b : ℕ) → raw w c b ≡ raw v c b
  pub head : w.fs_head ≡ v.fs_head
  pub flags : w.fs_bitmap ≡ v.fs_bitmap
  pub ciph : w.ciph ≡ v.ciph

-- The call for a file with clusters in the cache, fewer than 13, on a volume in order.
pub clrs_add-Listed :
    (v : Volume) (fuel fid id : ℕ) (e : TableEntry) (ids : List ℕ)
    → Ready v
    → Listed v fid e ids
    → length ids < first_stage
    → (w : Volume) × (clrs_add fuel fid id v ≡ ok 0 w)
      × Added v fid (entry_with e (length ids) id) (ids ++ id ∷ []) w
unfolding clrs_add
clrs_add-Listed v fuel fid id e ids ready l few =
    let c : ClrsCache = v.clrs_cache in
    let e' : TableEntry = entry_with e (length ids) id in
    let whole : length e'.clrs ≡ cluster_per_file =
      length-set e.clrs (length ids) (u16 id) ∙ Ready-clusters v fid e ready l.at_fid in
    let u : Volume = with_cache (with_entry v fid e') (appended c (length ids) id) in
    let ready_e = Ready-with_entry v fid e' whole ready in
    let ready_u : Ready u =
      Ready-kept (with_entry v fid e') u refl refl refl
        (Coherent-kept (with_entry v fid e') u refl refl refl (λ k. refl) ready_e.coherent)
        ready_e in
    let (w, eq, kept, ready_w) = write_table-Ready u ready_u in
    let stored : v.clrs_cache.s0_cnt ≡ length ids = l.cached.count in
    let small : ltb (length ids) first_stage ≡ true = ground (arith, few) in
    (
      w,
      rw (clrs_cnt-Listed v fid e ids l, small, l.at_fid, stored, eq) refl,
      record {
        ready = ready_w;
        listed = record {
          cached =
              rw (ap (λ y. y.clrs_cache) kept.rest) (appended-Cached fid ids c id few l.cached);
          some_id = omega (arith, length-append ids (id ∷ []));
          at_fid =
              ap (λ y. get_elem? y.fs_table.entrs fid) kept.rest
              ∙ get_elem?-set_here v.fs_table.entrs fid e'
                  (get_elem?-length v.fs_table.entrs fid e l.at_fid);
          no_second =
              get_elem?-set_other e.clrs (length ids) first_stage (u16 id)
                (λ q. absurd (omega (arith, q, l.cached.count, few)))
              ∙ l.no_second;
        };
        other_entries = λ k ne.
            ap (λ y. get_elem? y.fs_table.entrs k) kept.rest
            ∙ get_elem?-set_other v.fs_table.entrs fid k e' (λ same. ne (sym same));
        blocks = kept.blocks;
        head = ap (λ y. y.fs_head) kept.rest;
        flags = ap (λ y. y.fs_bitmap) kept.rest;
        ciph = ap (λ y. y.ciph) kept.rest;
      },
    )

-- dev_tbl_clrs_add for a file without a second stage whose clusters are in the cache, one at least
-- and fewer than 13, on a volume where the bitmap agrees with the tables of owners and the file table
-- fits its region and the cipher: it returns 0. Behind it dev_tbl_clrs_cnt returns one more, and
-- dev_tbl_clrs_get returns the old numbers and the new one behind them, both without a change;
-- the new number also stands in the file's entry of the table, every other entry and every block of a
-- cluster is kept, and bitmap and file table are in the same order.
pub clrs_add-clrs_get :
    (v : Volume) (fuel fid id i a : ℕ) (e : TableEntry) (ids : List ℕ)
    → Ready v
    → Listed v fid e ids
    → length ids < first_stage
    → get_elem? (ids ++ id ∷ []) i ≡ some a
    → (w : Volume) × (clrs_add fuel fid id v ≡ ok 0 w)
      × (clrs_cnt fid w ≡ ok (length ids + 1) w)
      × (clrs_get fid i w ≡ ok a w)
      × Added v fid (entry_with e (length ids) id) (ids ++ id ∷ []) w
clrs_add-clrs_get v fuel fid id i a e ids ready l few at_i =
    let (w, eq, added) = clrs_add-Listed v fuel fid id e ids ready l few in
    let more : length (ids ++ id ∷ []) ≡ length ids + 1 = length-append ids (id ∷ []) in
    (
      w,
      eq,
      clrs_cnt-Listed w fid (entry_with e (length ids) id) (ids ++ id ∷ []) added.listed
          ∙ ap (λ n. ok n w) more,
      clrs_get-Cached w fid (ids ++ id ∷ []) i a added.listed.cached at_i,
      added,
    )
