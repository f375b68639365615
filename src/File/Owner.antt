-- ===== src/File/Owner.antt =====
-- dev_file_reserve: the blocks of a list of links go to a file.
use fcfs.Base.{
  ℕ, zero, suc, ◌+◌, ◌-◌, ◌^◌, ◌<◌, ◌≤◌, ◌≡◌, refl, ap, ◌∙◌, Option, some, List, [], ◌∷◌, arith,
  All, length, get_elem?, get_elem?-some, set, length-set, All-set, ◌==◌, if◌then◌else◌, Bool-cases,
  inl, inr, ==→eq, ◌&&◌,
}
use fcfs.Base.Monad.{ok}
use fcfs.Base.Words.{u32}
use fcfs.Structs.{BlockListEntry, BlkInfo}
use fcfs.Volume.{Volume, lblk_sz}
use fcfs.Device.{at, block_pos}
use fcfs.Device.Blocks.{raw}
use fcfs.Layout.{IsVolume-InVolume}
use fcfs.Ctable.Roundtrip.{FitsEntry}
use fcfs.Ctable.View.{table_of, read_ctable-table_of}
use fcfs.Clusters.Coherent.{
  owners, Coherent, Coherent-at, Replaced, Replaced-at, write_ctable-sync_bitmap,
}
use fcfs.File.{own, reserve_block, reserve_blocks}

-- The owner of block `i + 1` of a cluster.
abbrev pub owner : Volume → ℕ → ℕ → Option BlockListEntry
owner v c i = get_elem? (owners v c) i

-- A link to one of the 7 blocks of data of a cluster of the volume.
pub record IsLink (v : Volume) (inf : BlkInfo) : Type 0 where
  pub cluster : inf.cid < v.fs_head.clu_cnt
  pub first : 1 ≤ inf.bid
  pub last : inf.bid ≤ 7

get_elem?-set :
    (es : List BlockListEntry) (i j : ℕ) (e : BlockListEntry)
    → i < length es
    → get_elem? (set es i e) j ≡ (if j == i then some e else get_elem? es j)
get_elem?-set [] i j e h = absurd (omega arith)
get_elem?-set (x ∷ es) zero zero e h = refl
get_elem?-set (x ∷ es) zero (suc j) e h = ground arith
get_elem?-set (x ∷ es) (suc i) zero e h = ground arith
get_elem?-set (x ∷ es) (suc i) (suc j) e h = ground (arith, get_elem?-set es i j e)

pub own-set :
    (es : List BlockListEntry) (bid fid num : ℕ)
    → 1 ≤ bid
    → bid ≤ length es
    → own es bid fid num ≡ some (set es (bid - 1) (record { fid = fid; num = num }))
unfolding own
own-set es zero fid num pos h = absurd (omega arith)
own-set es (suc i) fid num pos h =
    let (old, e) = get_elem?-some es i h in
    rw (e, own) (ap (λ k. some (set es k (record { fid = fid; num = num }))) {x = i} (omega arith))

-- What a round leaves for every block: the linked one has the new owner.
pub record Reserved (v : Volume) (fid num : ℕ) (inf : BlkInfo) (w : Volume) : Type 0 where
  pub owned :
      (c i : ℕ)
      → owner w c i ≡ (
          if c == inf.cid && i + 1 == inf.bid
          then some (record { fid = fid; num = num })
          else owner v c i)
  pub contents : (c b : ℕ) → 1 ≤ b → b < 8 → raw w c b ≡ raw v c b
  pub rest : w ≡ record v { dev = w.dev; fs_bitmap = w.fs_bitmap }

pub Replaced-Reserved :
    (v : Volume) (fid num : ℕ) (inf : BlkInfo) (w : Volume)
    → 1 ≤ inf.bid
    → inf.bid ≤ length (owners v inf.cid)
    → Replaced v inf.cid (set (owners v inf.cid) (inf.bid - 1) (record { fid = fid; num = num })) w
    → Reserved v fid num inf w
Replaced-Reserved v fid num inf w pos inside r = record {
  owned = λ c j. elim (Bool-cases (c == inf.cid)) [
    | inl same ↦
        let at_j =
          get_elem?-set (owners v inf.cid) (inf.bid - 1) j (record { fid = fid; num = num })
            (omega arith) in
        let test : (j == inf.bid - 1) ≡ (j + 1 == inf.bid) = ground arith in
        rw (same, ==→eq _ _ same, r.here, at_j, test) refl
    | inr other ↦ rw (other, r.elsewhere c (ground arith)) refl
  ];
  contents = r.contents;
  rest = r.rest;
}

-- A round of the first loop of dev_file_reserve for a link to a block of data, on a volume whose
-- bitmap agrees with its tables: it ends, the block belongs to the file under the given number, no
-- other block changes its owner, all blocks of data are kept, and the bitmap agrees again.
pub reserve_block_lem :
    (v : Volume) (fid num : ℕ) (inf : BlkInfo)
    → Coherent v
    → IsLink v inf
    → fid < 2 ^ 32
    → num < 2 ^ 32
    → (w : Volume) × (reserve_block fid num inf v ≡ ok tt w) × Coherent w × Reserved v fid num inf w
unfolding reserve_block
reserve_block_lem v fid num inf co link small_fid small_num =
    let p : ℕ = block_pos v inf.cid 0 + lblk_sz v in
    let shape = co.tables inf.cid link.cluster in
    let inside : inf.bid ≤ length (owners v inf.cid) = omega (arith, shape.count, link.last) in
    let entrs : List BlockListEntry =
      set (owners v inf.cid) (inf.bid - 1) (record { fid = fid; num = num }) in
    let (res, w, x, wrote, synced, co', r) =
      write_ctable-sync_bitmap (at v p) inf.cid (record (table_of v inf.cid) { entrs = entrs })
        (Coherent-at v p co) link.cluster
        (record {
          count =
              length-set (owners v inf.cid) (inf.bid - 1) (record { fid = fid; num = num })
              ∙ shape.count;
          fits =
              All-set FitsEntry (owners v inf.cid) (inf.bid - 1) (record { fid = fid; num = num })
                (record { fid = small_fid; num = small_num }) shape.fits;
        }) in
    (
      x,
      rw
          (
            read_ctable-table_of v inf.cid
                (IsVolume-InVolume v inf.cid 0 co.volume link.cluster (omega arith)) co.volume.fits,
            own-set (owners v inf.cid) inf.bid fid num link.first inside,
            wrote,
            synced,
          )
          refl,
      co',
      Replaced-Reserved v fid num inf x link.first inside (Replaced-at r),
    )

-- The numbers that the links are given.
abbrev pub numbered : ℕ → List BlkInfo → List BlkInfo
numbered last_num [] = []
numbered last_num (inf ∷ l) =
    record inf { num = u32 (last_num + 1) } ∷ numbered (u32 (last_num + 1)) l

-- The owner that block `i + 1` of cluster `c` has after the loop, when it had `old` before.
abbrev pub owner_after :
    ℕ → ℕ → List BlkInfo → ℕ → ℕ → Option BlockListEntry → Option BlockListEntry
owner_after fid last_num [] c i old = old
owner_after fid last_num (inf ∷ l) c i old = owner_after fid (u32 (last_num + 1)) l c i (
    if c == inf.cid && i + 1 == inf.bid
    then some (record { fid = fid; num = u32 (last_num + 1) })
    else old)

-- What the loop leaves for every block.
pub record ReservedAll (v : Volume) (fid last_num : ℕ) (l : List BlkInfo) (w : Volume)
    : Type 0 where
  pub owned : (c i : ℕ) → owner w c i ≡ owner_after fid last_num l c i (owner v c i)
  pub contents : (c b : ℕ) → 1 ≤ b → b < 8 → raw w c b ≡ raw v c b
  pub rest : w ≡ record v { dev = w.dev; fs_bitmap = w.fs_bitmap }

IsLink-rest : (v w : Volume) {inf : BlkInfo} → w.fs_head ≡ v.fs_head → IsLink v inf → IsLink w inf
IsLink-rest v w e k = record { cluster = rw e k.cluster; first = k.first; last = k.last }

All-IsLink :
    (v w : Volume) (l : List BlkInfo) → w.fs_head ≡ v.fs_head → All (IsLink v) l → All (IsLink w) l
All-IsLink v w [] e a = tt
All-IsLink v w (inf ∷ l) e a = (IsLink-rest v w e a.0, All-IsLink v w l e a.1)

-- The first loop of dev_file_reserve for links to blocks of data, on a volume whose bitmap agrees
-- with its tables: it ends, the links get the numbers that follow the last one, every linked block
-- belongs to the file under its link's number (the last one's, if linked twice), no other block
-- changes its owner, all blocks of data are kept, and the bitmap agrees with the tables again.
pub reserve_blocks_lem :
    (v : Volume) (fid last_num : ℕ) (l : List BlkInfo)
    → Coherent v
    → All (IsLink v) l
    → fid < 2 ^ 32
    → (w : Volume) × (reserve_blocks fid last_num l v ≡ ok (numbered last_num l) w)
      × Coherent w
      × ReservedAll v fid last_num l w
unfolding reserve_blocks
reserve_blocks_lem v fid last_num [] co links small =
    (v, refl, co, record { owned = λ c i. refl; contents = λ c b p q. refl; rest = refl })
reserve_blocks_lem v fid last_num (inf ∷ l) co links small =
    let num : ℕ = u32 (last_num + 1) in
    let (w, eq, co', r) = reserve_block_lem v fid num inf co links.0 small (omega arith) in
    let (x, eq', co'', rs) =
      reserve_blocks_lem w fid num l co' (All-IsLink v w l (ap (λ y. y.fs_head) r.rest) links.1)
        small in
    (
      x,
      rw (eq, eq') refl,
      co'',
      record {
        owned = λ c i. rs.owned c i ∙ ap (owner_after fid num l c i) (r.owned c i);
        contents = λ c b p q. rs.contents c b p q ∙ r.contents c b p q;
        rest = rs.rest ∙ λ i. record (r.rest i) { dev = x.dev; fs_bitmap = x.fs_bitmap };
      },
    )
