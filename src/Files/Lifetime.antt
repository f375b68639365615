-- ===== src/Files/Lifetime.antt =====
-- dev_file_alloc and dev_rm_file: a file that is made and removed at once.
use fcfs.Base.{
  ℕ, ◌^◌, ◌≤◌, ◌<◌, ◌≡◌, ◌≢◌, refl, ap, sym, ◌∙◌, true, false, ◌&&◌, inl, inr, some, [], ◌∷◌, arith,
  ◌==◌, ==→eq, length, get_elem?, get_elem?-set_here, get_elem?-length, get_or, Bool-cases,
}
use fcfs.Base.Monad.{ok}
use fcfs.Base.Words.{u16}
use fcfs.Structs.{BlockListEntry, TableEntry}
use fcfs.Volume.{Volume}
use fcfs.Device.Blocks.{raw}
use fcfs.Device.Owned.{owns}
use fcfs.Bitmap.{has_free}
use fcfs.Clusters.Coherent.{owners}
use fcfs.Clusters.Ready.{Ready}
use fcfs.Clrs.{first_stage, first_addrs}
use fcfs.Clrs.FirstStage.{clusters}
use fcfs.Clrs.Known.{Known, cold}
use fcfs.File.{file_alloc}
use fcfs.File.FirstBlock.{FirstBlock}
use fcfs.File.Alloc.{new_file, Allocated, file_alloc_lem}
use fcfs.File.Owner.{owner}
use fcfs.File.Growth.{taken-owns}
use fcfs.Files.{unlink_file}
use fcfs.Files.Remove.{Unlinked, unlink_file_lem}

-- Every owner is the one before, but that a free block may have another number.
pub record OwnedAlike (v w : Volume) : Type 0 where
  pub taken :
      (c i : ℕ) (o : BlockListEntry) → owner v c i ≡ some o → o.fid ≢ 0 → owner w c i ≡ some o
  pub free :
      (c i : ℕ) (o : BlockListEntry)
      → owner v c i ≡ some o
      → o.fid ≡ 0
      → (n : ℕ) × (owner w c i ≡ some (record { fid = 0; num = n }))

clusters-new_file : (fid c : ℕ) → fid ≢ 0 → c ≢ 0 → c < 2 ^ 16 → clusters fid (new_file c) ≡ c ∷ []
unfolding first_addrs
clusters-new_file fid c file id small =
    let some_file : (fid == 0) ≡ false = ground (arith, file) in
    let word : u16 c ≡ c = omega (arith, small) in
    let some_cluster : (c == 0) ≡ false = ground (arith, id) in
    rw (some_file, word, some_cluster) refl

-- The new file's only cluster is known from its entry.
Allocated-Known :
    (v w : Volume) (fid c k : ℕ) (old : TableEntry)
    → Allocated v fid c k w
    → get_elem? v.fs_table.entrs fid ≡ some old
    → fid ≢ 0
    → c ≢ 0
    → c < 2 ^ 16
    → (v.clrs_cache.fid == fid) ≡ false
    → first_stage ≤ length v.clrs_cache.s0_cl
    → Known w fid (new_file c) (c ∷ [])
Allocated-Known v w fid c k old a at_fid file id small other space =
    cold
      (record {
        file = file;
        entry =
            ap (λ y. get_elem? y.fs_table.entrs fid) a.rest
            ∙ get_elem?-set_here v.fs_table.entrs fid (new_file c)
                (get_elem?-length v.fs_table.entrs fid old at_fid);
        second = refl;
        other = ap (λ y. y.clrs_cache.fid == fid) a.rest ∙ other;
        space = rw (ap (λ y. y.clrs_cache) a.rest) space;
      })
      (clusters-new_file fid c file id small) (omega arith)

-- A block with an owner is not the first free block of the cluster.
owned_elsewhere :
    (v : Volume) (c k d i : ℕ) (o : BlockListEntry)
    → FirstBlock (owners v c) k
    → owner v d i ≡ some o
    → o.fid ≢ 0
    → (d == c && i == k) ≡ false
owned_elsewhere v c k d i o first at_i taken = elim (Bool-cases (d == c)) [
  | inl cluster ↦ elim (Bool-cases (i == k)) [
    | inl place ↦
        let same_c : d ≡ c = ==→eq _ _ cluster in
        let same_k : i ≡ k = ==→eq _ _ place in
        let not_free = taken-owns (owners v d) i o at_i taken in
        let was_free = (λ j. owns (owners v (same_c j)) (same_k j) 0) ∙ first.free in
        absurd (ground (arith, sym not_free ∙ was_free))
    | inr other ↦ rw (cluster, other) refl
  ]
  | inr other ↦ rw other refl
]

module _ (v w x : Volume) (fid c k : ℕ) (a : Allocated v fid c k w)
    (first : FirstBlock (owners v c) k) (u : Unlinked w fid (new_file c) (c ∷ []) x)
    (file : fid ≢ 0)
    (none_owned : (d i : ℕ) (o : BlockListEntry) → owner v d i ≡ some o → o.fid ≢ fid) where
  -- A block other than the new file's keeps its owner through both calls.
  taken_kept :
      (d i : ℕ) (o : BlockListEntry)
      → owner v d i ≡ some o
      → (d == c && i == k) ≡ false
      → owner x d i ≡ some o
  taken_kept d i o at_i elsewhere =
      u.kept d i o (a.owned d i ∙ rw elsewhere at_i) (none_owned d i o at_i)

  -- The file's block is free again.
  freed_again :
      (d i : ℕ) → (d == c && i == k) ≡ true → owner x d i ≡ some (record { fid = 0; num = 0 })
  freed_again d i here =
      let cluster : (d == c) ≡ true = ground (arith, here) in
      u.freed d i (record { fid = fid; num = 0 }) refl (rw cluster refl)
        (a.owned d i ∙ rw here refl) refl

  pub Allocated-Unlinked : OwnedAlike v x
  Allocated-Unlinked = record {
    taken =
        λ d i o at_i taken. taken_kept d i o at_i (owned_elsewhere v c k d i o first at_i taken);
    free = λ d i o at_i free. elim (Bool-cases (d == c && i == k)) [
      | inl here ↦ (0, freed_again d i here)
      | inr elsewhere ↦ (
        o.num,
        taken_kept d i o at_i elsewhere ∙ λ j. some (record { fid = free j; num = o.num }),
      )
    ];
  }

-- dev_file_alloc and then dev_rm_file up to the directory, for a file other than 0 that owns no
-- block and has a number of 32 bits and a place in the file table, on a volume where the bitmap
-- agrees with the tables of owners and the file table fits its region and the cipher, when the
-- cache is another file's and its array has room for the first stage, byte 0 of the bitmap is not
-- full, some cluster behind cluster 0 has a free block, and the number of every cluster has 16
-- bits: both get through and the file is gone. Every block with an owner then has the same one,
-- every free block is free, all blocks of data are kept, and bitmap and file table are in the same
-- order again.
pub file_alloc-unlink_file :
    (v : Volume) (fid d : ℕ) (old : TableEntry)
    → Ready v
    → get_elem? v.fs_table.entrs fid ≡ some old
    → fid ≢ 0
    → fid < 2 ^ 32
    → (v.clrs_cache.fid == fid) ≡ false
    → first_stage ≤ length v.clrs_cache.s0_cl
    → v.fs_head.clu_cnt ≤ 2 ^ 16
    → get_or v.fs_bitmap 0 0 ≢ 255
    → 0 < d
    → d < v.fs_head.clu_cnt
    → has_free (owners v d) ≡ true
    → ((c i : ℕ) (o : BlockListEntry) → owner v c i ≡ some o → o.fid ≢ fid)
    → (w x : Volume) × (file_alloc fid v ≡ ok 0 w)
      × (unlink_file fid w ≡ ok true x)
      × Ready x
      × OwnedAlike v x
      × ((c b : ℕ) → 1 ≤ b → b < 8 → raw x c b ≡ raw v c b)
file_alloc-unlink_file v fid d old ready at_fid file few other space words room positive inside free
      unowned =
    let (w, c, k, made, ff, first, a) =
      file_alloc_lem v fid d old ready at_fid few room positive inside free in
    let id : c ≢ 0 = λ e. absurd (omega (arith, e, ff.behind)) in
    let head : w.fs_head ≡ v.fs_head = ap (λ y. y.fs_head) a.rest in
    let known =
      Allocated-Known v w fid c k old a at_fid file id (omega (arith, a.cluster, words)) other
        space in
    let (x, gone, u) =
      unlink_file_lem w fid (new_file c) (c ∷ []) a.ready file known ((id, rw head a.cluster), tt)
        (omega arith) in
    (
      w,
      x,
      made,
      gone,
      u.ready,
      Allocated-Unlinked v w x fid c k a first u file unowned,
      λ e b pos lt. u.contents e b pos lt ∙ a.contents e b pos lt,
    )
