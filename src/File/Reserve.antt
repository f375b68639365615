-- ===== src/File/Reserve.antt =====
-- dev_file_reserve and dev_extd_blk_list: a file gets free blocks and takes their clusters into its
-- list.
use fcfs.Base.{
  ℕ, suc, ◌+◌, ◌^◌, ◌≤◌, ◌<◌, ◌≡◌, ◌≢◌, refl, ap, subst, ◌∙◌, false, List, [], ◌∷◌, ◌++◌, arith,
  ◌==◌, if◌then◌else◌, length, get_elem?, All,
}
use fcfs.Base.Monad.{ok}
use fcfs.Base.Words.{u32, is_neg, minus_one}
use fcfs.Structs.{TableEntry, BlkInfo}
use fcfs.Volume.{Volume}
use fcfs.Device.{at}
use fcfs.Device.Owned.{member}
use fcfs.Persist.Regions.{BlocksKept}
use fcfs.Persist.TableRegion.{TableSaved}
use fcfs.Clusters.Coherent.{Coherent, Coherent-kept}
use fcfs.Clusters.Ready.{Ready, Ready-kept, write_table-TableSaved}
use fcfs.Clrs.{first_stage, with_cache}
use fcfs.Clrs.Known.{Listed, Known, warm, cold, clrs_cnt-Known}
use fcfs.Clrs.Add.{Added}
use fcfs.Clusters.FreeLinks.{IsFree}
use fcfs.Clusters.Distinct.{DistinctLinks}
use fcfs.Clusters.FreeBlocks.{HasRoom, free_blocks_lem}
use fcfs.File.Owner.{numbered}
use fcfs.File.Growth.{Grown, Grown-kept, reserve_blocks-Grown}
use fcfs.File.Lengthened.{all_clusters, Lengthened}
use fcfs.File.MemClrs.{file_mem_clrs-Listed}
use fcfs.File.{file_reserve, extd_blk_list}

length-numbered : (n : ℕ) (l : List BlkInfo) → length (numbered n l) ≡ length l
length-numbered n [] = refl
length-numbered n (inf ∷ l) = ap suc (length-numbered (u32 (n + 1)) l)

all_clusters-numbered :
    (ids : List ℕ) (n : ℕ) (l : List BlkInfo) → all_clusters ids (numbered n l) ≡ all_clusters ids l
all_clusters-numbered ids n [] = refl
all_clusters-numbered ids n (inf ∷ l) =
    all_clusters-numbered (if member inf.cid ids then ids else ids ++ inf.cid ∷ []) (u32 (n + 1)) l

Known-at :
    (v : Volume) (p fid : ℕ) (e : TableEntry) (ids : List ℕ)
    → Known v fid e ids
    → Known (at v p) fid e ids
Known-at v p fid e ids (warm l) =
    warm (record {
      cached = l.cached;
      some_id = l.some_id;
      at_fid = l.at_fid;
      no_second = l.no_second;
    })
Known-at v p fid e ids (cold one same some_id) =
    cold
      (record {
        file = one.file;
        entry = one.entry;
        second = one.second;
        other = one.other;
        space = one.space;
      })
      same some_id

-- What dev_extd_blk_list leaves of a file with the entry `e`, the clusters `ids` and `last_num` as
-- its last block's number. Each link's block belongs to the file under the number of its link, and
-- every other block is owned as before. The cache and the file's entry list the clusters of the file
-- and of the links; the rest of the entry and every other entry are kept, and the file table is saved
-- on the device.
pub record Extended (v : Volume) (fid last_num : ℕ) (e : TableEntry) (ids : List ℕ)
    (l : List BlkInfo) (w : Volume) : Type 0 where
  pub ready : Ready w
  pub grown : Grown v fid last_num l w
  pub entry : TableEntry
  pub listed : Listed w fid entry (all_clusters ids l)
  pub lengthened : Lengthened e ids (all_clusters ids l) entry
  pub other_entries :
      (k : ℕ) → k ≢ fid → get_elem? w.fs_table.entrs k ≡ get_elem? v.fs_table.entrs k
  pub saved : TableSaved w
  pub head : w.fs_head ≡ v.fs_head
  pub ciph : w.ciph ≡ v.ciph

-- The blocks are reserved, their clusters are listed, and the file table is written.
Grown-Extended :
    (v w x y : Volume) (fid n : ℕ) (e f : TableEntry) (ids : List ℕ) (l : List BlkInfo)
    → Grown v fid n l w
    → w.fs_head ≡ v.fs_head
    → w.fs_table ≡ v.fs_table
    → w.ciph ≡ v.ciph
    → Added w fid f (all_clusters ids l) x
    → Lengthened e ids (all_clusters ids l) f
    → BlocksKept x y
    → Ready y
    → TableSaved y
    → Extended v fid n e ids l y
Grown-Extended v w x y fid n e f ids l g head entries ciph a longer kept ready saved =
    let head_y : y.fs_head ≡ x.fs_head = ap (λ z. z.fs_head) kept.rest in
    let cache : y.clrs_cache ≡ x.clrs_cache = ap (λ z. z.clrs_cache) kept.rest in
    let table : y.fs_table ≡ x.fs_table = ap (λ z. z.fs_table) kept.rest in
    let ciph_y : y.ciph ≡ x.ciph = ap (λ z. z.ciph) kept.rest in
    record {
      ready = ready;
      grown =
          Grown-kept v w y fid n l ready.coherent (head_y ∙ a.head)
            (λ d b. kept.blocks d b ∙ a.blocks d b) g;
      entry = f;
      listed = record {
        cached = rw cache a.listed.cached;
        some_id = a.listed.some_id;
        at_fid = ap (λ t. get_elem? t.entrs fid) table ∙ a.listed.at_fid;
        no_second = a.listed.no_second;
      };
      lengthened = longer;
      other_entries = λ k ne.
          ap (λ t. get_elem? t.entrs k) table
          ∙ a.other_entries k ne
          ∙ ap (λ t. get_elem? t.entrs k) entries;
      saved = saved;
      head = head_y ∙ a.head ∙ head;
      ciph = ciph_y ∙ a.ciph ∙ ciph;
    }

-- What a change of device and bitmap alone leaves of the list.
Listed-rest :
    (u w : Volume) (fid : ℕ) (e : TableEntry) (ids : List ℕ)
    → w ≡ record u { dev = w.dev; fs_bitmap = w.fs_bitmap }
    → Listed u fid e ids
    → Listed w fid e ids
Listed-rest u w fid e ids rest k = record {
  cached = rw (ap (λ y. y.clrs_cache) rest) k.cached;
  some_id = k.some_id;
  at_fid = ap (λ y. get_elem? y.fs_table.entrs fid) rest ∙ k.at_fid;
  no_second = k.no_second;
}

-- dev_file_reserve over links to free blocks.
file_reserve-Extended :
    (v : Volume) (q fuel fid last_num : ℕ) (e : TableEntry) (ids : List ℕ) (l : List BlkInfo)
    → Ready v
    → fid ≢ 0
    → fid < 2 ^ 32
    → Known v fid e ids
    → All (IsFree v) l
    → DistinctLinks l
    → length ids + length l ≤ first_stage
    → (w : Volume) × (file_reserve fuel fid l last_num (at v q) ≡ ok (0, numbered last_num l) w)
      × Extended v fid last_num e ids l w
unfolding file_reserve
file_reserve-Extended v q fuel fid last_num e ids l ready file small known free once few =
    let (c, counted, k) = clrs_cnt-Known (at v q) fid e ids (Known-at v q fid e ids known) in
    let u : Volume = with_cache (at v q) c in
    let co : Coherent u = Coherent-kept v u refl refl refl (λ d. refl) ready.coherent in
    let (w, eq, rest, g) =
      reserve_blocks-Grown v u fid last_num l co refl (λ d b. refl) free once small in
    let head : w.fs_head ≡ v.fs_head = ap (λ y. y.fs_head) rest in
    let ciph : w.ciph ≡ v.ciph = ap (λ y. y.ciph) rest in
    let ready_w : Ready w = Ready-kept v w head (ap (λ y. y.fs_table) rest) ciph g.coherent ready in
    let (x, f, eq', a, longer) =
      file_mem_clrs-Listed w fuel fid e ids (numbered last_num l) ready_w
        (Listed-rest u w fid e ids rest k) (omega (arith, few, length-numbered last_num l)) in
    let (y, eq'', kept, ready_y, saved) = write_table-TableSaved x a.ready in
    let clusters = all_clusters-numbered ids last_num l in
    let some_file : (fid == 0) ≡ false = ground (arith, file) in
    let nonneg : is_neg (length ids) ≡ false = ground (arith, few) in
    (
      y,
      rw (some_file, counted, nonneg, eq, eq', eq'') refl,
      Grown-Extended v w x y fid last_num e f ids l g head (ap (λ y. y.fs_table) rest) ciph
          (subst (λ is. Added w fid f is x) clusters a)
          (subst (λ is. Lengthened e ids is f) clusters longer) kept ready_y saved,
    )

pub extd_blk_list_lem :
    (v : Volume) (inf : List BlkInfo) (seq_sz count fid : ℕ) (e : TableEntry) (ids : List ℕ)
    → Ready v
    → fid ≢ 0
    → fid < 2 ^ 32
    → Known v fid e ids
    → HasRoom v count 0
    → length ids + count ≤ first_stage
    → (l : List BlkInfo) × (w : Volume) × (extd_blk_list count inf seq_sz count fid v
        ≡ ok (u32 (seq_sz + count), inf ++ numbered (u32 (seq_sz + minus_one)) l) w)
      × (length l ≡ count)
      × Extended v fid (u32 (seq_sz + minus_one)) e ids l w
unfolding extd_blk_list
extd_blk_list_lem v inf seq_sz count fid e ids ready file small known room few =
    let last_num : ℕ = u32 (seq_sz + minus_one) in
    let (q, l, found, size, free, once) = free_blocks_lem v count ready.coherent room in
    let (w, eq, ext) =
      file_reserve-Extended v q count fid last_num e ids l ready file small known free once
        (omega (arith, few, size)) in
    (l, w, rw (found, eq, length-numbered last_num l, size) refl, size, ext)
