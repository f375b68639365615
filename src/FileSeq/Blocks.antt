-- ===== src/FileSeq/Blocks.antt =====
-- What dev_get_file_seq reads of a file without a second stage: one link for each block that the
-- tables of owners give to it, in the clusters that the file lists.
use fcfs.Base.{
  ℕ, suc, ◌+◌, ◌-◌, ◌≤◌, ◌≡◌, ◌≢◌, refl, ap, ap₂, ◌∙◌, sym, inl, inr, false, List, [], ◌∷◌, ◌++◌,
  arith, some, none, ◌==◌, if◌then◌else◌, length, get_or, get_elem?, Bool-cases,
}
use fcfs.Base.Monad.{Cmd, ok, out_of_fuel, pure}
use fcfs.Base.Words.{u8}
use fcfs.Structs.{BlkInfo, BlockListEntry, TableEntry}
use fcfs.Volume.{Volume}
use fcfs.Device.{at, blocks_from, get_blocks}
use fcfs.Clusters.Coherent.{Coherent, Coherent-kept, owners, owners-kept}
use fcfs.Clusters.FreeBlocks.{read_table_at}
use fcfs.Clrs.{with_cache, clrs_cnt}
use fcfs.Clrs.Cached.{Cached, clrs_get-Cached}
use fcfs.Clrs.Known.{Known, clrs_cnt-Known}
use fcfs.Files.Release.{OnVolume}
use fcfs.Seq.{sort}
use fcfs.Seq.Sort.{first_two, sort-first_two}
use fcfs.FileSeq.{cluster_links, collect, read_seq}

-- The blocks that a cluster's table of owners gives to a file, with their numbers, from block `i + 1`
-- on.
abbrev pub owned_links : ℕ → ℕ → ℕ → List BlockListEntry → List BlkInfo
owned_links fid cid i [] = []
owned_links fid cid i (e ∷ es) =
    let rest = owned_links fid cid (i + 1) es in
    if fid == e.fid then record { cid = cid; bid = i + 1; num = e.num } ∷ rest else rest

-- The blocks of a file in the clusters `ids`.
abbrev pub file_blocks : Volume → ℕ → List ℕ → List BlkInfo
file_blocks v fid [] = []
file_blocks v fid (cid ∷ ids) = owned_links fid cid 0 (owners v cid) ++ file_blocks v fid ids

abbrev no_entry : BlockListEntry
no_entry = record { fid = 0; num = 0 }

blocks_from-owned_links :
    (entrs es : List BlockListEntry) (fid cid i : ℕ)
    → i + length es ≤ 255
    → ((k : ℕ) → get_or entrs (i + k) no_entry ≡ get_or es k no_entry)
    → cluster_links cid entrs (blocks_from i es fid) ≡ owned_links fid cid i es
unfolding cluster_links blocks_from
blocks_from-owned_links entrs [] fid cid i few same = refl
blocks_from-owned_links entrs (e ∷ es) fid cid i few same =
    let byte : u8 (i + 1) ≡ i + 1 = omega (arith, few) in
    let here : get_or entrs (i + 1 - 1) no_entry ≡ e =
      ap (λ k. get_or entrs k no_entry) {x = i + 1 - 1} {y = i + 0} (omega arith) ∙ same 0 in
    let rest = blocks_from-owned_links entrs es fid cid (i + 1) (omega (arith, few)) (λ k.
      ap (λ j. get_or entrs j no_entry) {x = i + 1 + k} {y = i + suc k} (omega arith)
      ∙ same (suc k)) in
    elim (Bool-cases (fid == e.fid)) [
      | inl own ↦ rw own (λ j. record { cid = cid; bid = byte j; num = (here j).num } ∷ rest j)
      | inr other ↦ rw other rest
    ]

get_blocks-owned_links :
    (es : List BlockListEntry) (fid cid : ℕ)
    → length es ≡ 7
    → cluster_links cid es (get_blocks es fid) ≡ owned_links fid cid 0 es
unfolding get_blocks
get_blocks-owned_links es fid cid seven =
    blocks_from-owned_links es es fid cid 0 (omega (arith, seven))
      (λ k. ap (λ j. get_or es j no_entry) {x = 0 + k} {y = k} (omega arith))

-- The loop over clusters, when the cache lists them.
collect-file_blocks :
    (u : Volume) (fid p i : ℕ) (ids rest : List ℕ)
    → Coherent u
    → fid ≢ 0
    → Cached fid ids u.clrs_cache
    → OnVolume u rest
    → ((j a : ℕ) → get_elem? rest j ≡ some a → get_elem? ids (i + j) ≡ some a)
    → (q : ℕ) × (collect fid i (length rest) (at u p) ≡ ok (file_blocks u fid rest) (at u q))
unfolding collect
collect-file_blocks u fid p i ids [] co file c on place = (p, refl)
collect-file_blocks u fid p i ids (cid ∷ rest) co file c ((id, small), on) place =
    let here : get_elem? ids i ≡ some cid =
      ap (get_elem? ids) {x = i} {y = i + 0} (omega arith) ∙ place 0 cid refl in
    let (p', table) = read_table_at u co cid p small in
    let (q, later) = collect-file_blocks u fid p' (i + 1) ids rest co file c on (λ j b at_j.
      ap (get_elem? ids) {x = i + 1 + j} {y = i + suc j} (omega arith) ∙ place (suc j) b at_j) in
    let some_file : (fid == 0) ≡ false = ground (arith, file) in
    let some_id : (cid == 0) ≡ false = ground (arith, id) in
    let links = get_blocks-owned_links (owners u cid) fid cid (co.tables cid small).count in
    (
      q,
      rw (clrs_get-Cached (at u p) fid ids i cid c here, some_file, some_id, table, later)
          (ap (λ l. ok (l ++ file_blocks u fid rest) (at u q)) links),
    )

file_blocks-kept :
    (v u : Volume) (fid : ℕ) (ids : List ℕ)
    → ((c : ℕ) → owners u c ≡ owners v c)
    → file_blocks u fid ids ≡ file_blocks v fid ids
file_blocks-kept v u fid [] same = refl
file_blocks-kept v u fid (cid ∷ ids) same =
    ap₂ ◌++◌ (ap (owned_links fid cid 0) (same cid)) (file_blocks-kept v u fid ids same)

uncons : (l : List BlkInfo) → 1 ≤ length l → (a : BlkInfo) × (r : List BlkInfo) × (l ≡ a ∷ r)
uncons [] h = absurd (omega arith)
uncons (a ∷ r) h = (a, r, refl)

read_seq-collect :
    (v u w : Volume) (fid n : ℕ) (inf : BlkInfo) (l : List BlkInfo)
    → clrs_cnt fid v ≡ ok n u
    → collect fid 0 n u ≡ ok (inf ∷ l) w
    → read_seq fid v ≡ ok (first_two (inf ∷ l)) w
unfolding read_seq
read_seq-collect v u w fid n inf l counted found =
    let sorted : sort 2 (inf ∷ l) ≡ some (first_two (inf ∷ l)) = sort-first_two 0 (inf ∷ l) in
    rw (counted, found)
      (ap
        (λ o.
          (elim o as (λ _. Cmd Volume (List BlkInfo)) [ none ↦ λ _. out_of_fuel | some m ↦ pure m ])
            w)
        sorted)

-- The reading of a file that has a block: its links with the first two in order, and a change of cache
-- and stream alone.
pub read_seq-file_blocks :
    (v : Volume) (fid : ℕ) (e : TableEntry) (ids : List ℕ)
    → Coherent v
    → fid ≢ 0
    → Known v fid e ids
    → OnVolume v ids
    → 1 ≤ length (file_blocks v fid ids)
    → (w : Volume) × (read_seq fid v ≡ ok (first_two (file_blocks v fid ids)) w)
      × (w ≡ at (with_cache v w.clrs_cache) w.dev.pos)
read_seq-file_blocks v fid e ids co file known on some_block =
    let (c, counted, k) = clrs_cnt-Known v fid e ids known in
    let u : Volume = with_cache v c in
    let co_u : Coherent u = Coherent-kept v u refl refl refl (λ d. refl) co in
    let (q, found) =
      collect-file_blocks u fid v.dev.pos 0 ids ids co_u file k.cached on
        (λ j a h. ap (get_elem? ids) {x = 0 + j} {y = j} (omega arith) ∙ h) in
    let same = file_blocks-kept v u fid ids (λ d. owners-kept v u d refl refl) in
    let (inf, l, shape) = uncons (file_blocks v fid ids) some_block in
    let read =
      read_seq-collect v u (at u q) fid (length ids) inf l counted
        (found ∙ ap (λ k. ok k (at u q)) (same ∙ shape)) in
    (at u q, read ∙ ap (λ k. ok (first_two k) (at u q)) (sym shape), refl)
