-- ===== src/File/Steps.antt =====
-- Sequences of operations on the blocks of a volume, and what all of them keep.
use fcfs.Base.{
  ℕ, ◌+◌, ◌≤◌, ◌^◌, ◌<◌, ◌≡◌, ◌≢◌, ◌∙◌, ap, sym, subst, refl, Bool, true, false, some, List, length,
  ◌==◌, get_elem?, get_or,
}
use fcfs.Base.Monad.{Run, ok, died, fault, out_of_fuel}
use fcfs.Structs.{TableEntry, BlkInfo}
use fcfs.Volume.{Volume}
use fcfs.Device.{get_blocks}
use fcfs.Device.Blocks.{raw}
use fcfs.Bitmap.{has_free}
use fcfs.Clusters.{clust_claim}
use fcfs.Clusters.Coherent.{Coherent, Coherent-kept, owners, owners-kept}
use fcfs.Clusters.Ready.{Ready, Ready-kept}
use fcfs.Clusters.Claim.{clust_claim_lem}
use fcfs.Clusters.FreeBlocks.{HasRoom}
use fcfs.Clrs.{first_stage, with_cache}
use fcfs.Clrs.Known.{Known, clrs_cnt-Known}
use fcfs.File.{file_alloc, del_block, extd_blk_list}
use fcfs.File.Owner.{IsLink}
use fcfs.File.Release.{del_block_lem}
use fcfs.File.Alloc.{file_alloc_lem}
use fcfs.File.Reserve.{extd_blk_list_lem}
use fcfs.Files.{unlink_file}
use fcfs.Files.Release.{OnVolume}
use fcfs.Files.Remove.{unlink_file_lem}

-- One operation on a volume in order: dev_clust_claim of a cluster, dev_file_alloc of a file where a
-- search has room, dev_extd_blk_list of a file whose first stage has room, dev_del_block of a block
-- that is not its file's only one in the cluster, or dev_rm_file up to the directory.
pub data Step (v w : Volume) : Type 0 where
  claim : (cid res : ℕ) → cid < v.fs_head.clu_cnt → clust_claim cid v ≡ ok res w → Step v w
  alloc :
      (fid d res : ℕ) (old : TableEntry)
      → get_elem? v.fs_table.entrs fid ≡ some old
      → fid < 2 ^ 32
      → get_or v.fs_bitmap 0 0 ≢ 255
      → 0 < d
      → d < v.fs_head.clu_cnt
      → has_free (owners v d) ≡ true
      → file_alloc fid v ≡ ok res w
      → Step v w
  extend :
      (inf : List BlkInfo) (seq_sz count fid : ℕ) (e : TableEntry) (ids : List ℕ)
      (res : ℕ × List BlkInfo)
      → fid ≢ 0
      → fid < 2 ^ 32
      → Known v fid e ids
      → HasRoom v count 0
      → length ids + count ≤ first_stage
      → extd_blk_list count inf seq_sz count fid v ≡ ok res w
      → Step v w
  release :
      (fid res : ℕ) (e : TableEntry) (ids : List ℕ) (inf : BlkInfo)
      → Known v fid e ids
      → IsLink v inf
      → (length (get_blocks (owners v inf.cid) fid) == 1) ≡ false
      → del_block fid inf.cid inf.bid v ≡ ok res w
      → Step v w
  unlink :
      (fid : ℕ) (e : TableEntry) (ids : List ℕ) (res : Bool)
      → fid ≢ 0
      → Known v fid e ids
      → OnVolume v ids
      → e.lnk_cnt < 2 ^ 8
      → unlink_file fid v ≡ ok res w
      → Step v w

-- any number of operations, one behind the other
pub data Reach (v : Volume) : Volume → Type 0 where
  start : Reach v v
  behind : {w x : Volume} → Reach v w → Step w x → Reach v x

state_of : {A : Type 0} → Volume → Run Volume A → Volume
state_of v (ok a w) = w
state_of v died = v
state_of v fault = v
state_of v out_of_fuel = v

-- A command leaves one state.
one_state :
    {A : Type 0} {r : Run Volume A} {a b : A} {v w : Volume} → r ≡ ok a v → r ≡ ok b w → v ≡ w
unfolding state_of
one_state {A} {r} {a} {b} {v} {w} e f = sym (ap (state_of v) e) ∙ ap (state_of v) f

-- `w` is in order, and the blocks of data are those of `v`.
pub record Sound (v w : Volume) : Type 0 where
  pub ready : Ready w
  pub contents : (c b : ℕ) → 1 ≤ b → b < 8 → raw w c b ≡ raw v c b

-- A change of device and bitmap alone.
Sound-rest :
    {v w : Volume}
    → w ≡ record v { dev = w.dev; fs_bitmap = w.fs_bitmap }
    → Coherent w
    → ((c b : ℕ) → 1 ≤ b → b < 8 → raw w c b ≡ raw v c b)
    → Ready v
    → Sound v w
Sound-rest {v} {w} rest co contents ready = record {
  ready =
      Ready-kept v w (ap (λ y. y.fs_head) rest) (ap (λ y. y.fs_table) rest) (ap (λ y. y.ciph) rest)
        co ready;
  contents = contents;
}

del_block-Sound :
    (v : Volume) (fid : ℕ) (e : TableEntry) (ids : List ℕ) (inf : BlkInfo)
    → Ready v
    → Known v fid e ids
    → IsLink v inf
    → (length (get_blocks (owners v inf.cid) fid) == 1) ≡ false
    → (res : ℕ) × (w : Volume) × (del_block fid inf.cid inf.bid v ≡ ok res w) × Sound v w
del_block-Sound v fid e ids inf ready known link several =
    let (c, counted, _) = clrs_cnt-Known v fid e ids known in
    let u : Volume = with_cache v c in
    let co : Coherent u = Coherent-kept v u refl refl refl (λ k. refl) ready.coherent in
    let same : owners u inf.cid ≡ owners v inf.cid = owners-kept v u inf.cid refl refl in
    let (res, w, eq, co', r) =
      del_block_lem v u fid (length ids) inf counted co
        (record { cluster = link.cluster; first = link.first; last = link.last })
        (ap (λ es. length (get_blocks es fid) == 1) same ∙ several) in
    let after = Sound-rest r.rest co' r.contents (Ready-kept v u refl refl refl co ready) in
    (res, w, eq, record { ready = after.ready; contents = r.contents })

Step-Sound : {v w : Volume} → Step v w → Ready v → Sound v w
Step-Sound {v} {w} (claim cid res small runs) ready =
    let (_, x, eq, co, _, r) = clust_claim_lem v cid ready.coherent small in
    subst (Sound v) (one_state eq runs) (Sound-rest r.rest co r.contents ready)
Step-Sound {v} {w} (alloc fid d res old at_fid small room positive inside free runs) ready =
    let (x, c, k, eq, _, _, done) =
      file_alloc_lem v fid d old ready at_fid small room positive inside free in
    subst (Sound v) (one_state eq runs) (record { ready = done.ready; contents = done.contents })
Step-Sound {v} {w} (extend inf sz count fid e ids res file small known room few runs) ready =
    let (_, x, eq, _, done) =
      extd_blk_list_lem v inf sz count fid e ids ready file small known room few in
    subst (Sound v) (one_state eq runs)
      (record { ready = done.ready; contents = done.grown.contents })
Step-Sound {v} {w} (release fid res e ids inf known link several runs) ready =
    let (_, x, eq, sound) = del_block-Sound v fid e ids inf ready known link several in
    subst (Sound v) (one_state eq runs) sound
Step-Sound {v} {w} (unlink fid e ids res file known on byte runs) ready =
    let (x, eq, done) = unlink_file_lem v fid e ids ready file known on byte in
    subst (Sound v) (one_state eq runs) (record { ready = done.ready; contents = done.contents })

-- From a volume where the bitmap agrees with the tables of owners and the file table fits its region
-- and the cipher, in every volume that is reached by steps that end, in any order and number, the
-- same holds and no block of data has changed. A step claims a cluster of the volume, gives a new
-- file its first block where the search has room, gives a file without a second stage as many
-- blocks as the searches and its first stage have room for, releases a block that is not its file's
-- only one in the cluster, or takes a link from a file without a second stage whose clusters lie on
-- the volume, and its blocks with the last link.
pub Reach-Sound : {v w : Volume} → Reach v w → Ready v → Sound v w
Reach-Sound start ready = record { ready = ready; contents = λ c b p q. refl }
Reach-Sound (behind path step) ready =
    let before = Reach-Sound path ready in
    let after = Step-Sound step before.ready in
    record {
      ready = after.ready;
      contents = λ c b p q. after.contents c b p q ∙ before.contents c b p q;
    }
