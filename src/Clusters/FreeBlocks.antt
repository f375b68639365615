-- ===== src/Clusters/FreeBlocks.antt =====
-- The loop of dev_free_blocks over the clusters that the searches find.
use fcfs.Base.{
  ℕ, zero, suc, ◌+◌, ◌-◌, ◌≤◌, ◌<◌, ◌^◌, ◌≡◌, refl, ap, ◌∙◌, sym, subst, not, some, Bool, true,
  false, List, [], ◌++◌, append_assoc, append-nil, All, arith, ◌==◌, if◌then◌else◌, length, take,
  length-append,
}
use fcfs.Base.Monad.{ok}
use fcfs.Structs.{BlockList, BlkInfo}
use fcfs.Volume.{Volume, lblk_sz}
use fcfs.Device.{at, get_blocks, block_pos}
use fcfs.Device.Blocks.{InVolume}
use fcfs.Layout.{IsVolume-InVolume, clusters_few}
use fcfs.Bitmap
use fcfs.Bitmap.{has_free}
use fcfs.Bitmap.Update.{used}
use fcfs.Ctable.{read_ctable}
use fcfs.Ctable.View.{table_of, table_of-eq, read_ctable-table_of}
use fcfs.Clusters.{free_cluster_from, free_blocks_from, free_blocks, links}
use fcfs.Clusters.Coherent.{owners, Coherent}
use fcfs.Clusters.FreeLinks.{
  IsFree, InTable, some_block, blocks_from-InTable, links-IsFree, length-links, take_some,
  All-append, All-take, All-map,
}
use fcfs.Clusters.Distinct.{
  Increasing, DistinctLinks, blocks_from-Increasing, take-Increasing, links-DistinctLinks,
  links-cid, append-DistinctLinks, All-trans,
}
use fcfs.Bitmap.Faults.{free_cluster_from-behind}

-- The searches of the loop from cluster `s` find clusters with a clear flag, `k` times in a row.
abbrev pub HasRoom : Volume → ℕ → ℕ → Type 0
HasRoom v zero s = Unit {0}
HasRoom v (suc k) s =
    (c : ℕ) × (Bitmap.free_cluster_from v.fs_bitmap v.fs_head.clu_cnt s ≡ some c)
    × (c < v.fs_head.clu_cnt)
    × (used v.fs_bitmap c ≡ false)
    × HasRoom v k c

HasRoom-le : (v : Volume) (k n s : ℕ) → k ≤ n → HasRoom v n s → HasRoom v k s
HasRoom-le v zero n s h r = tt
HasRoom-le v (suc k) zero s h r = absurd (omega arith)
HasRoom-le v (suc k) (suc n) s h (c, eq, lt, clear, r) =
    (c, eq, lt, clear, HasRoom-le v k n c (omega arith) r)

free_step :
    (fuel count s c : ℕ) (found out : List BlkInfo) (bl : BlockList) (v v1 v2 : Volume)
    → Bitmap.free_cluster_from v.fs_bitmap v.fs_head.clu_cnt s ≡ some c
    → read_ctable c v ≡ ok bl v1
    → (length (take (suc count) (get_blocks bl.entrs 0)) == 0) ≡ false
    → free_blocks_from fuel
        (suc count - length (take (suc count) (get_blocks bl.entrs 0)))
        c
        (found ++ links c (take (suc count) (get_blocks bl.entrs 0)))
        v1
      ≡ ok out v2
    → free_blocks_from (suc fuel) (suc count) s found v ≡ ok out v2
unfolding free_blocks_from free_cluster_from
free_step fuel count s c found out bl v v1 v2 answer table some_bids later =
    let bids : List ℕ = take (suc count) (get_blocks bl.entrs 0) in
    rw (answer, table)
      (subst
        (λ x.
          free_blocks_from fuel (suc count - length bids) (if x then s else c)
            (found ++ links c bids) v1
          ≡ ok out v2)
        (sym some_bids) later)

pub not-false : (b : Bool) → not b ≡ false → b ≡ true
not-false true h = refl
not-false false h = sym h

module _ (v : Volume) (co : Coherent v) where
  pub read_table_at :
      (c p : ℕ)
      → c < v.fs_head.clu_cnt
      → (q : ℕ) × (read_ctable c (at v p) ≡ ok (table_of v c) (at v q))
  read_table_at c p lt =
      let i : InVolume v c 0 = IsVolume-InVolume v c 0 co.volume lt (omega arith) in
      (
        block_pos v c 0 + lblk_sz v,
        read_ctable-table_of (at v p) c
              (record { nonneg = i.nonneg; addressed = i.addressed; inside = i.inside })
              co.volume.fits
            ∙ ap (λ t. ok t (at v (block_pos v c 0 + lblk_sz v)))
                (table_of-eq v (at v p) c refl refl),
      )

  round :
      (c : ℕ)
      → c < v.fs_head.clu_cnt
      → used v.fs_bitmap c ≡ false
      → 1 ≤ length (get_blocks (owners v c) 0)
  unfolding get_blocks
  round c lt clear =
      some_block (owners v c) 0 (not-false (has_free (owners v c)) (sym (co.flags c lt) ∙ clear))

  get_blocks-InTable : (c : ℕ) → All (InTable (owners v c) 0) (get_blocks (owners v c) 0)
  unfolding get_blocks
  get_blocks-InTable c = blocks_from-InTable (owners v c) 0

  round-Increasing : (n c : ℕ) → Increasing (take n (get_blocks (owners v c) 0))
  unfolding get_blocks
  round-Increasing n c =
      take-Increasing n (get_blocks (owners v c) 0) (blocks_from-Increasing (owners v c) 0)

  round-DistinctLinks :
      (n c : ℕ)
      → c < v.fs_head.clu_cnt
      → DistinctLinks (links c (take n (get_blocks (owners v c) 0)))
  round-DistinctLinks n c lt =
      links-DistinctLinks c (take n (get_blocks (owners v c) 0))
        (All-take (λ x. x < 256) n (get_blocks (owners v c) 0)
          (All-map (InTable (owners v c) 0) (λ x. x < 256) (get_blocks (owners v c) 0)
            (λ b h. omega (arith, h.1, (co.tables c lt).count)) (get_blocks-InTable c)))
        (round-Increasing n c)

  -- The next search goes on behind the last one.
  search_behind :
      (s c : ℕ)
      → s < 2 ^ 31
      → Bitmap.free_cluster_from v.fs_bitmap v.fs_head.clu_cnt s ≡ some c
      → c < v.fs_head.clu_cnt
      → (s < c) × (c < 2 ^ 31)
  search_behind s c small found lt =
      let few : c < 2 ^ 31 = omega (arith, clusters_few v co.volume) in
      (
        free_cluster_from-behind v.fs_bitmap v.fs_head.clu_cnt s c small found
            (λ e. absurd (omega (arith, e, few))),
        few,
      )

  -- Each round of the loop adds at least one free block.
  free_blocks_from-HasRoom :
      (fuel count s p : ℕ) (found : List BlkInfo)
      → count ≤ fuel
      → s < 2 ^ 31
      → HasRoom v count s
      → (q : ℕ) × (l : List BlkInfo) × (free_blocks_from fuel count s found (at v p)
          ≡ ok (found ++ l) (at v q))
        × (length l ≡ count)
        × All (IsFree v) l
        × All (λ inf. s < inf.cid) l
        × DistinctLinks l
  unfolding free_blocks_from
  free_blocks_from-HasRoom fuel zero s p found h small r =
      (p, [], ap (λ l. ok l (at v p)) (sym (append-nil found)), refl, tt, tt, tt)
  free_blocks_from-HasRoom zero (suc count) s p found h small r = absurd (omega arith)
  free_blocks_from-HasRoom (suc fuel) (suc count) s p found h small (c, answer, lt, clear, r) =
      let free : List ℕ = get_blocks (owners v c) 0 in
      let bids : List ℕ = take (suc count) free in
      let (more, few) = take_some count free (round c lt clear) in
      let (p1, table) = read_table_at c p lt in
      let (behind, c_small) = search_behind s c small answer lt in
      let (q, l, later, size, all, further, once) =
        free_blocks_from-HasRoom fuel (suc count - length bids) c p1 (found ++ links c bids)
          (omega arith) c_small (HasRoom-le v (suc count - length bids) count c (omega arith) r) in
      (
        q,
        links c bids ++ l,
        free_step fuel count s c found _ (table_of v c) (at v p) (at v p1) (at v q) answer table
              (ground arith) later
            ∙ ap (λ x. ok x (at v q)) (append_assoc found (links c bids) l),
        omega (arith, length-append (links c bids) l, length-links c bids),
        All-append (IsFree v) (links c bids) l
            (links-IsFree v c bids lt (co.tables c lt).count
              (All-take (InTable (owners v c) 0) (suc count) free (get_blocks-InTable c)))
            all,
        All-append (λ inf. s < inf.cid) (links c bids) l (links-cid (λ x. s < x) c bids behind)
            (All-trans s c l behind further),
        append-DistinctLinks c bids l (round-DistinctLinks (suc count) c lt) further once,
      )

-- On a volume whose bitmap agrees with its tables of owners, and where the searches find as many
-- clusters with a clear flag in a row as blocks are asked for: dev_free_blocks ends within one round
-- for each block, moves the stream only, and its links, as many as asked for, lead to blocks of data
-- that no file has, each to another one.
pub free_blocks_lem :
    (v : Volume) (count : ℕ)
    → Coherent v
    → HasRoom v count 0
    → (q : ℕ) × (l : List BlkInfo) × (free_blocks count count v ≡ ok l (at v q))
      × (length l ≡ count)
      × All (IsFree v) l
      × DistinctLinks l
unfolding free_blocks
free_blocks_lem v count co room =
    let (q, l, eq, size, free, _, once) =
      free_blocks_from-HasRoom v co count count 0 v.dev.pos [] (omega arith) (omega arith) room in
    (q, l, eq, size, free, once)
