-- ===== src/Clusters/Distinct.antt =====
-- The links that dev_free_blocks makes lead to different blocks.
use fcfs.Base.{
  ℕ, zero, suc, ◌+◌, ◌<◌, ◌≡◌, refl, inl, inr, false, List, [], ◌∷◌, ◌++◌, All, arith, ◌==◌, ◌&&◌,
  take, Bool-cases,
}
use fcfs.Base.Words.{u8}
use fcfs.Structs.{BlockListEntry, BlkInfo}
use fcfs.Device.{blocks_from}
use fcfs.Clusters.{links}
use fcfs.Clusters.FreeLinks.{InTable, blocks_from-InTable, All-take, All-map, All-append}

-- No link of the list leads to the block `bid` of cluster `cid`.
abbrev pub Unlinked : ℕ → ℕ → List BlkInfo → Type 0
Unlinked cid bid = All (λ inf. (cid == inf.cid && bid == inf.bid) ≡ false)

-- Every block is linked once.
abbrev pub DistinctLinks : List BlkInfo → Type 0
DistinctLinks [] = Unit {0}
DistinctLinks (inf ∷ l) = Unlinked inf.cid inf.bid l × DistinctLinks l

-- numbers in increasing order
abbrev pub Increasing : List ℕ → Type 0
Increasing [] = Unit {0}
Increasing (b ∷ bs) = All (λ x. b < x) bs × Increasing bs

pub blocks_from-Increasing : (es : List BlockListEntry) (i : ℕ) → Increasing (blocks_from i es 0)
unfolding blocks_from
blocks_from-Increasing [] i = tt
blocks_from-Increasing (e ∷ es) i = elim (Bool-cases (0 == e.fid)) [
  | inl free ↦ rw free (
    All-map (InTable es (i + 1)) (λ x. i + 1 < x) (blocks_from (i + 1) es 0)
        (λ b h. omega (arith, h.0)) (blocks_from-InTable es (i + 1)),
    blocks_from-Increasing es (i + 1),
  )
  | inr taken ↦ rw taken (blocks_from-Increasing es (i + 1))
]

pub take-Increasing : (n : ℕ) (bs : List ℕ) → Increasing bs → Increasing (take n bs)
take-Increasing zero bs h = tt
take-Increasing (suc n) [] h = tt
take-Increasing (suc n) (b ∷ bs) h = (All-take (λ x. b < x) n bs h.0, take-Increasing n bs h.1)

links-Unlinked :
    (c b : ℕ) (bs : List ℕ)
    → b < 256
    → All (λ x. b < x) bs
    → All (λ x. x < 256) bs
    → Unlinked c (u8 b) (links c bs)
links-Unlinked c b [] byte more bytes = tt
links-Unlinked c b (x ∷ bs) byte more bytes =
    (ground (arith, more.0, bytes.0, byte), links-Unlinked c b bs byte more.1 bytes.1)

pub links-DistinctLinks :
    (c : ℕ) (bs : List ℕ) → All (λ x. x < 256) bs → Increasing bs → DistinctLinks (links c bs)
links-DistinctLinks c [] bytes h = tt
links-DistinctLinks c (b ∷ bs) bytes h =
    (links-Unlinked c b bs bytes.0 h.0 bytes.1, links-DistinctLinks c bs bytes.1 h.1)

pub links-cid : (P : ℕ → Type 0) (c : ℕ) (bs : List ℕ) → P c → All (λ inf. P inf.cid) (links c bs)
links-cid P c [] h = tt
links-cid P c (b ∷ bs) h = (h, links-cid P c bs h)

pub All-trans :
    (s c : ℕ) (l : List BlkInfo) → s < c → All (λ inf. c < inf.cid) l → All (λ inf. s < inf.cid) l
All-trans s c [] lt h = tt
All-trans s c (inf ∷ l) lt h = (omega (arith, lt, h.0), All-trans s c l lt h.1)

behind-Unlinked : (c b : ℕ) (l : List BlkInfo) → All (λ inf. c < inf.cid) l → Unlinked c b l
behind-Unlinked c b [] h = tt
behind-Unlinked c b (inf ∷ l) h =
    let other : (c == inf.cid) ≡ false = ground (arith, h.0) in
    (rw other refl, behind-Unlinked c b l h.1)

-- The links of a cluster, and behind them those of later clusters.
pub append-DistinctLinks :
    (c : ℕ) (bs : List ℕ) (l : List BlkInfo)
    → DistinctLinks (links c bs)
    → All (λ inf. c < inf.cid) l
    → DistinctLinks l
    → DistinctLinks (links c bs ++ l)
append-DistinctLinks c [] l d later e = e
append-DistinctLinks c (b ∷ bs) l d later e = (
  All-append (λ inf. (c == inf.cid && u8 b == inf.bid) ≡ false) (links c bs) l d.0
      (behind-Unlinked c (u8 b) l later),
  append-DistinctLinks c bs l d.1 later e,
)
