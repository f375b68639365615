-- ===== src/Files/Release.antt =====
-- The loop of dev_rm_file over the clusters of the file.
use fcfs.Base.{
  ℕ, suc, ◌+◌, ◌≤◌, ◌<◌, ◌≡◌, ◌≢◌, refl, ap, sym, ◌∙◌, true, false, inl, inr, some, List, [], ◌∷◌,
  All, arith, ◌==◌, ==→eq, if◌then◌else◌, length, get_elem?, Bool-cases,
}
use fcfs.Base.Monad.{ok}
use fcfs.Structs.{BlockListEntry}
use fcfs.Volume.{Volume, lblk_sz}
use fcfs.Device.{at, block_pos, get_blocks}
use fcfs.Device.Blocks.{raw}
use fcfs.Device.Owned.{member}
use fcfs.Layout.{IsVolume-InVolume}
use fcfs.Ctable.View.{table_of, read_ctable-table_of}
use fcfs.Clusters.Coherent.{
  owners, owners-at, Coherent, Coherent-at, Replaced, Replaced-at, write_ctable-sync_bitmap,
}
use fcfs.Clrs.{when, clrs_get}
use fcfs.Clrs.Cached.{Cached, clrs_get-Cached}
use fcfs.Files.{release_clusters}
use fcfs.Files.Disown.{
  released, disown-get_blocks, released-IsBlockList, released_twice, released_none,
}

-- The clusters `ids` have lost the blocks of the file; no other block has changed its owner, and
-- nothing but device and bitmap is different.
pub record Released (v : Volume) (fid : ℕ) (ids : List ℕ) (w : Volume) : Type 0 where
  pub owned :
      (c : ℕ) → owners w c ≡ (if member c ids then released fid (owners v c) else owners v c)
  pub contents : (c b : ℕ) → 1 ≤ b → b < 8 → raw w c b ≡ raw v c b
  pub rest : w ≡ record v { dev = w.dev; fs_bitmap = w.fs_bitmap }

unchanged-Released :
    (v : Volume) (fid cid p : ℕ)
    → (length (get_blocks (owners v cid) fid) == 0) ≡ true
    → Released v fid (cid ∷ []) (at v p)
unchanged-Released v fid cid p empty = record {
  owned = λ c. owners-at v p c ∙ elim (Bool-cases (c == cid)) [
    | inl same ↦
        let here : owners v c ≡ owners v cid = ap (owners v) (==→eq _ _ same) in
        rw (same, here) (sym (released_none (owners v cid) fid empty))
    | inr other ↦ rw other refl
  ];
  contents = λ c b pos lt. refl;
  rest = refl;
}

Replaced-Released :
    (v : Volume) (fid cid : ℕ) (w : Volume)
    → Replaced v cid (released fid (owners v cid)) w
    → Released v fid (cid ∷ []) w
Replaced-Released v fid cid w r = record {
  owned = λ c. elim (Bool-cases (c == cid)) [
    | inl same ↦
        let here : c ≡ cid = ==→eq _ _ same in
        rw same (ap (owners w) here ∙ r.here ∙ ap (λ k. released fid (owners v k)) (sym here))
    | inr other ↦ rw other (r.elsewhere c (ground (arith, other)))
  ];
  contents = r.contents;
  rest = r.rest;
}

Released-behind :
    (v w x : Volume) (fid cid : ℕ) (ids : List ℕ)
    → Released v fid (cid ∷ []) w
    → Released w fid ids x
    → Released v fid (cid ∷ ids) x
Released-behind v w x fid cid ids r s = record {
  owned =
      λ c. s.owned c ∙ ap (λ es. if member c ids then released fid es else es) (r.owned c) ∙ both c;
  contents = λ c b pos lt. s.contents c b pos lt ∙ r.contents c b pos lt;
  rest = s.rest ∙ λ i. record (r.rest i) { dev = x.dev; fs_bitmap = x.fs_bitmap };
}
  where
    both :
        (c : ℕ)
        → (let es : List BlockListEntry =
              if member c (cid ∷ []) then released fid (owners v c) else owners v c in
            if member c ids then released fid es else es)
          ≡ (if member c (cid ∷ ids) then released fid (owners v c) else owners v c)
    both c = elim (Bool-cases (c == cid)) [
      | inl same ↦ elim (Bool-cases (member c ids)) [
        | inl more ↦ rw (same, more) (released_twice (owners v c) fid)
        | inr last ↦ rw (same, last) refl
      ]
      | inr other ↦ rw other refl
    ]

-- A round of the loop of dev_rm_file over the clusters, for a cluster that is not 0.
release_round :
    (v : Volume) (fid i left cid : ℕ)
    → Coherent v
    → clrs_get fid i v ≡ ok cid v
    → cid ≢ 0
    → cid < v.fs_head.clu_cnt
    → (w : Volume) × (release_clusters fid i (suc left) v ≡ release_clusters fid (i + 1) left w)
      × Coherent w
      × Released v fid (cid ∷ []) w
unfolding release_clusters
release_round v fid i left cid co cached id small =
    let p : ℕ = block_pos v cid 0 + lblk_sz v in
    let shape = co.tables cid small in
    let some_cluster : (cid == 0) ≡ false = ground (arith, id) in
    let reads =
      read_ctable-table_of v cid (IsVolume-InVolume v cid 0 co.volume small (omega arith))
        co.volume.fits in
    let (res, w, x, wrote, synced, co', r) =
      write_ctable-sync_bitmap (at v p) cid
        (record (table_of v cid) { entrs = released fid (owners v cid) }) (Coherent-at v p co) small
        (released-IsBlockList (owners v cid) fid shape) in
    elim (Bool-cases (length (get_blocks (owners v cid) fid) == 0)) [
      | inl empty ↦ (
        at v p,
        rw (cached, some_cluster, reads, disown-get_blocks (owners v cid) fid, empty, when) refl,
        Coherent-at v p co,
        unchanged-Released v fid cid p empty,
      )
      | inr blocks ↦ (
        x,
        rw
            (
              cached,
              some_cluster,
              reads,
              disown-get_blocks (owners v cid) fid,
              blocks,
              when,
              wrote,
              synced,
            )
            refl,
        co',
        Replaced-Released v fid cid x (Replaced-at r),
      )
    ]

-- The clusters that the cache lists are not 0 and lie on the volume.
abbrev pub OnVolume : Volume → List ℕ → Type 0
OnVolume v ids = All (λ a. (a ≢ 0) × (a < v.fs_head.clu_cnt)) ids

OnVolume-rest :
    (v w : Volume) (ids : List ℕ) → w.fs_head ≡ v.fs_head → OnVolume v ids → OnVolume w ids
OnVolume-rest v w [] head a = tt
OnVolume-rest v w (c ∷ ids) head ((id, small), later) =
    ((id, rw head small), OnVolume-rest v w ids head later)

pub release_loop :
    (v : Volume) (fid i : ℕ) (all ids : List ℕ)
    → Coherent v
    → Cached fid all v.clrs_cache
    → ((j a : ℕ) → get_elem? ids j ≡ some a → get_elem? all (i + j) ≡ some a)
    → OnVolume v ids
    → (w : Volume) × (release_clusters fid i (length ids) v ≡ ok tt w)
      × Coherent w
      × Released v fid ids w
unfolding release_clusters
release_loop v fid i all [] co c place on =
    (v, refl, co, record { owned = λ k. refl; contents = λ k b p q. refl; rest = refl })
release_loop v fid i all (cid ∷ ids) co c place ((id, small), on) =
    let here : get_elem? all i ≡ some cid =
      ap (get_elem? all) {x = i} {y = i + 0} (omega arith) ∙ place 0 cid refl in
    let (w, eq, co', r) =
      release_round v fid i (length ids) cid co (clrs_get-Cached v fid all i cid c here) id small in
    let cache : w.clrs_cache ≡ v.clrs_cache = ap (λ y. y.clrs_cache) r.rest in
    let (x, eq', co'', s) =
      release_loop w fid (i + 1) all ids co' (rw cache c)
        (λ j a at_j.
          ap (get_elem? all) {x = i + 1 + j} {y = i + suc j} (omega arith) ∙ place (suc j) a at_j)
        (OnVolume-rest v w ids (ap (λ y. y.fs_head) r.rest) on) in
    (x, eq ∙ eq', co'', Released-behind v w x fid cid ids r s)
