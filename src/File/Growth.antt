-- ===== src/File/Growth.antt =====
-- A file that grows: the blocks that dev_free_blocks finds are reserved by dev_file_reserve.
use fcfs.Base.{
  ℕ, zero, suc, ◌+◌, ◌-◌, ◌^◌, ◌≤◌, ◌<◌, ◌≡◌, ◌≢◌, refl, ap, ◌∙◌, sym, subst, true, false, ◌&&◌,
  Option, some, none, List, [], ◌∷◌, All, arith, ◌==◌, if◌then◌else◌, get_elem?, Bool-cases, inl,
  inr, ==→eq, ==_refl,
}
use fcfs.Base.Monad.{ok}
use fcfs.Base.Words.{u32}
use fcfs.Structs.{BlkInfo, BlockListEntry}
use fcfs.Volume.{Volume}
use fcfs.Device.Blocks.{raw}
use fcfs.Device.Owned.{owns}
use fcfs.Clusters.Coherent.{Coherent, owners, owners-kept}
use fcfs.Clusters.FreeLinks.{IsFree}
use fcfs.Clusters.Distinct.{Unlinked, DistinctLinks}
use fcfs.File.{reserve_blocks}
use fcfs.File.Owner.{owner, owner_after, numbered, IsLink, reserve_blocks_lem}

-- An entry with an owner is not free.
pub taken-owns :
    (es : List BlockListEntry) (i : ℕ) (e : BlockListEntry)
    → get_elem? es i ≡ some e
    → e.fid ≢ 0
    → owns es i 0 ≡ false
taken-owns [] i e at_i ne = refl
taken-owns (x ∷ es) zero e at_i ne =
    let same : x.fid ≡ e.fid = ap (λ o. elim o [ none ↦ x.fid | some y ↦ y.fid ]) at_i in
    ground arith
taken-owns (x ∷ es) (suc i) e at_i ne = taken-owns es i e at_i ne

-- A free block is not the place of an owner.
free-elsewhere :
    (v : Volume) (inf : BlkInfo) (c i : ℕ) (e : BlockListEntry)
    → IsFree v inf
    → owner v c i ≡ some e
    → e.fid ≢ 0
    → (c == inf.cid && i + 1 == inf.bid) ≡ false
free-elsewhere v inf c i e f at_i ne = elim (Bool-cases (c == inf.cid)) [
  | inl same ↦ elim (Bool-cases (i + 1 == inf.bid)) [
    | inl block ↦
        let cluster : c ≡ inf.cid = ==→eq _ _ same in
        let place : i + 1 ≡ inf.bid = ==→eq _ _ block in
        let number : i ≡ inf.bid - 1 = omega arith in
        absurd (
          ground (
            arith,
            sym f.owner
                ∙ (λ j. owns (owners v (sym cluster j)) (sym number j) 0)
                ∙ taken-owns (owners v c) i e at_i ne,
          ))
    | inr other ↦ rw (same, other) refl
  ]
  | inr other ↦ rw other refl
]

-- The loop leaves a block with an owner when its links lead to free blocks only.
owner_after-taken :
    (v : Volume) (fid last_num : ℕ) (l : List BlkInfo) (c i : ℕ) (e : BlockListEntry)
    → All (IsFree v) l
    → owner v c i ≡ some e
    → e.fid ≢ 0
    → owner_after fid last_num l c i (some e) ≡ some e
owner_after-taken v fid n [] c i e free at_i ne = refl
owner_after-taken v fid n (inf ∷ l) c i e (f, free) at_i ne =
    rw (free-elsewhere v inf c i e f at_i ne)
      (owner_after-taken v fid (u32 (n + 1)) l c i e free at_i ne)

-- A block that no link leads to keeps its owner.
owner_after-Unlinked :
    (fid last_num : ℕ) (l : List BlkInfo) (c i : ℕ) (old : Option BlockListEntry)
    → Unlinked c (i + 1) l
    → owner_after fid last_num l c i old ≡ old
owner_after-Unlinked fid n [] c i old h = refl
owner_after-Unlinked fid n (inf ∷ l) c i old (other, h) =
    rw other (owner_after-Unlinked fid (u32 (n + 1)) l c i old h)

-- Every linked block belongs to the file behind the loop, under the number of its link.
owner_after-linked :
    (v : Volume) (fid last_num : ℕ) (l : List BlkInfo) (old : ℕ → ℕ → Option BlockListEntry)
    → All (IsFree v) l
    → DistinctLinks l
    → All
        (λ inf.
          owner_after fid last_num l inf.cid (inf.bid - 1) (old inf.cid (inf.bid - 1))
          ≡ some (record { fid = fid; num = inf.num }))
        (numbered last_num l)
owner_after-linked v fid n [] old free once = tt
owner_after-linked v fid n (inf ∷ l) old (f, free) (other, once) =
    let next : ℕ = u32 (n + 1) in
    let block : inf.bid - 1 + 1 ≡ inf.bid = omega (arith, f.first) in
    let here : (inf.cid == inf.cid && inf.bid - 1 + 1 == inf.bid) ≡ true =
      rw (==_refl inf.cid, block, ==_refl inf.bid) refl in
    (
      rw here (
          owner_after-Unlinked fid next l inf.cid (inf.bid - 1)
            (some (record { fid = fid; num = next }))
            (subst (λ b. Unlinked inf.cid b l) (sym block) other)),
      owner_after-linked v fid next l
          (λ c i.
            if c == inf.cid && i + 1 == inf.bid
            then some (record { fid = fid; num = next })
            else old c i)
          free once,
    )

-- What the growth of file `fid` by the links `l` leaves, when its last block has the number
-- `last_num`: each linked block belongs to the file under the number of its link, every other block
-- belongs to the same file under the same number, which is so for all that belonged to a file.
pub record Grown (v : Volume) (fid last_num : ℕ) (l : List BlkInfo) (w : Volume) : Type 0 where
  pub coherent : Coherent w
  pub linked :
      All
        (λ inf. owner w inf.cid (inf.bid - 1) ≡ some (record { fid = fid; num = inf.num }))
        (numbered last_num l)
  pub beside : (c i : ℕ) → Unlinked c (i + 1) l → owner w c i ≡ owner v c i
  pub kept :
      (c i : ℕ) (e : BlockListEntry) → owner v c i ≡ some e → e.fid ≢ 0 → owner w c i ≡ some e
  pub contents : (c b : ℕ) → 1 ≤ b → b < 8 → raw w c b ≡ raw v c b

All-map :
    {P Q : BlkInfo → Type 0} (l : List BlkInfo)
    → ((inf : BlkInfo) → P inf → Q inf)
    → All P l
    → All Q l
All-map [] f a = tt
All-map (x ∷ l) f (a, rest) = (f x a, All-map l f rest)

-- The first loop of dev_file_reserve over links to free blocks, from a state with the same blocks.
pub reserve_blocks-Grown :
    (v u : Volume) (fid last_num : ℕ) (l : List BlkInfo)
    → Coherent u
    → u.fs_head ≡ v.fs_head
    → ((c b : ℕ) → raw u c b ≡ raw v c b)
    → All (IsFree v) l
    → DistinctLinks l
    → fid < 2 ^ 32
    → (w : Volume) × (reserve_blocks fid last_num l u ≡ ok (numbered last_num l) w)
      × (w ≡ record u { dev = w.dev; fs_bitmap = w.fs_bitmap })
      × Grown v fid last_num l w
reserve_blocks-Grown v u fid last_num l co head blocks free once small =
    let same : (c : ℕ) → owners u c ≡ owners v c = λ c. owners-kept v u c head (blocks c 0) in
    let links : All (IsLink u) l =
      All-map l (λ inf f. record { cluster = rw head f.cluster; first = f.first; last = f.last })
        free in
    let (w, eq, co', r) = reserve_blocks_lem u fid last_num l co links small in
    (
      w,
      eq,
      r.rest,
      record {
        coherent = co';
        linked =
            All-map (numbered last_num l) (λ inf e. r.owned inf.cid (inf.bid - 1) ∙ e)
              (owner_after-linked v fid last_num l (owner u) free once);
        beside = λ c i other.
            r.owned c i
            ∙ owner_after-Unlinked fid last_num l c i (owner u c i) other
            ∙ ap (λ es. get_elem? es i) (same c);
        kept = λ c i e at_i ne.
            r.owned c i
            ∙ ap (owner_after fid last_num l c i) (ap (λ es. get_elem? es i) (same c) ∙ at_i)
            ∙ owner_after-taken v fid last_num l c i e free at_i ne;
        contents = λ c b pos lt. r.contents c b pos lt ∙ blocks c b;
      },
    )

-- It stands on the head and the blocks alone.
pub Grown-kept :
    (v w x : Volume) (fid last_num : ℕ) (l : List BlkInfo)
    → Coherent x
    → x.fs_head ≡ w.fs_head
    → ((c b : ℕ) → raw x c b ≡ raw w c b)
    → Grown v fid last_num l w
    → Grown v fid last_num l x
Grown-kept v w x fid n l co head blocks g =
    let same : (c i : ℕ) → owner x c i ≡ owner w c i =
      λ c i. ap (λ es. get_elem? es i) (owners-kept w x c head (blocks c 0)) in
    record {
      coherent = co;
      linked = All-map (numbered n l) (λ inf e. same inf.cid (inf.bid - 1) ∙ e) g.linked;
      beside = λ c i other. same c i ∙ g.beside c i other;
      kept = λ c i e at_i ne. same c i ∙ g.kept c i e at_i ne;
      contents = λ c b pos lt. blocks c b ∙ g.contents c b pos lt;
    }
