-- ===== src/Clusters/FullFree.antt =====
-- dev_full_free_cluster: the search for a cluster none of whose blocks is taken.
use fcfs.Base.{
  ℕ, zero, suc, ◌+◌, ◌-◌, ◌/◌, ◌≤◌, ◌<◌, ◌≡◌, ◌≢◌, refl, ap, sym, ◌∙◌, Bool, true, false, inl, inr,
  some, List, [], ◌∷◌, arith, ◌==◌, ltb, ==→eq, if◌then◌else◌, length, get_or, Bool-cases,
}
use fcfs.Base.Monad.{ok}
use fcfs.Structs.{BlockList, BlockListEntry, bloks_per_cluster}
use fcfs.Volume.{Volume}
use fcfs.Device.{at, blocks_from, get_blocks}
use fcfs.Bitmap
use fcfs.Bitmap.{has_free}
use fcfs.Bitmap.Update.{used}
use fcfs.Bitmap.Search.{FirstFree, FirstFree-le, byte_of_free, free_cluster_from_lem}
use fcfs.Layout.{clusters_few}
use fcfs.Ctable.{read_ctable}
use fcfs.Ctable.View.{table_of}
use fcfs.Clusters.{free_cluster_from, full_free_cluster}
use fcfs.Clusters.Coherent.{owners, Coherent}
use fcfs.Clusters.FreeBlocks.{read_table_at}

-- The test of dev_full_free_cluster: no block of the cluster has an owner.
abbrev pub is_whole : Volume → ℕ → Bool
is_whole v c = length (get_blocks (owners v c) 0) == bloks_per_cluster - 1

found_whole :
    (fuel s c : ℕ) (bl : BlockList) (v v1 : Volume)
    → Bitmap.free_cluster_from v.fs_bitmap v.fs_head.clu_cnt s ≡ some c
    → read_ctable c v ≡ ok bl v1
    → (length (get_blocks bl.entrs 0) == bloks_per_cluster - 1) ≡ true
    → full_free_cluster (suc fuel) s v ≡ ok c v1
unfolding full_free_cluster free_cluster_from
found_whole fuel s c bl v v1 found table whole = rw (found, table, whole) refl

found_part :
    (fuel s c : ℕ) (bl : BlockList) (v v1 : Volume)
    → Bitmap.free_cluster_from v.fs_bitmap v.fs_head.clu_cnt s ≡ some c
    → read_ctable c v ≡ ok bl v1
    → (length (get_blocks bl.entrs 0) == bloks_per_cluster - 1) ≡ false
    → full_free_cluster (suc fuel) s v ≡ full_free_cluster fuel c v1
unfolding full_free_cluster free_cluster_from
found_part fuel s c bl v v1 found table part = rw (found, table, part) refl

no_blocks : (es : List BlockListEntry) (i : ℕ) → has_free es ≡ false → blocks_from i es 0 ≡ []
unfolding has_free blocks_from
no_blocks [] i h = refl
no_blocks (e ∷ es) i h = elim (Bool-cases (e.fid == 0)) [
  | inl free ↦ absurd (ground (arith, free, h))
  | inr taken ↦
      let other : (0 == e.fid) ≡ false = ground (arith, taken) in
      rw other (no_blocks es (i + 1) (ap (λ b. if b then true else has_free es) (sym taken) ∙ h))
]

-- What the search from `s` should return: the first cluster behind `s` without an owner.
pub record FirstWhole (v : Volume) (s c : ℕ) : Type 0 where
  pub behind : s < c
  pub inside : c < v.fs_head.clu_cnt
  pub whole : is_whole v c ≡ true
  pub least : (c' : ℕ) → s < c' → c' < c → is_whole v c' ≡ false

module _ (v : Volume) (co : Coherent v) where
  -- A cluster with a set flag has no free block, so the test fails.
  used-is_whole : (c : ℕ) → c < v.fs_head.clu_cnt → used v.fs_bitmap c ≡ true → is_whole v c ≡ false
  unfolding get_blocks
  used-is_whole c lt flag =
      let full : has_free (owners v c) ≡ false = ground (arith, sym (co.flags c lt) ∙ flag) in
      rw (no_blocks (owners v c) 0 full) refl

  is_whole-clear :
      (c : ℕ) → c < v.fs_head.clu_cnt → is_whole v c ≡ true → used v.fs_bitmap c ≡ false
  is_whole-clear c lt whole = elim (Bool-cases (used v.fs_bitmap c)) [
    | inl flag ↦ absurd (ground (arith, sym whole ∙ used-is_whole c lt flag))
    | inr clear ↦ clear
  ]

  -- The clusters between two rounds fail the test.
  FirstWhole-behind :
      (s c d : ℕ)
      → FirstFree v.fs_bitmap s c
      → is_whole v c ≡ false
      → c < v.fs_head.clu_cnt
      → FirstWhole v c d
      → FirstWhole v s d
  FirstWhole-behind s c d first part lt f = record {
    behind = omega (arith, first.behind, f.behind);
    inside = f.inside;
    whole = f.whole;
    least = λ c' lo hi. elim (Bool-cases (ltb c' c)) [
      | inl before ↦
          used-is_whole c' (ground (arith, before, lt)) (first.least c' lo (ground (arith, before)))
      | inr not_before ↦ elim (Bool-cases (c' == c)) [
        | inl same ↦ ap (is_whole v) (==→eq _ _ same) ∙ part
        | inr other ↦ f.least c' (ground (arith, not_before, other)) hi
      ]
    ];
  }

  search_whole :
      (fuel s p d : ℕ)
      → d ≤ fuel + s
      → s < d
      → d < v.fs_head.clu_cnt
      → get_or v.fs_bitmap (s / 8) 0 ≢ 255
      → is_whole v d ≡ true
      → (q c : ℕ) × (full_free_cluster fuel s (at v p) ≡ ok c (at v q)) × FirstWhole v s c
  search_whole zero s p d rounds before inside room whole = absurd (omega arith)
  search_whole (suc fuel) s p d rounds before inside room whole =
      let clear = is_whole-clear d inside whole in
      let few = clusters_few v co.volume in
      let (c, found, first) =
        free_cluster_from_lem v.fs_bitmap v.fs_head.clu_cnt s d co.volume.flag_bytes
          (omega (arith, few)) room before (omega (arith, co.volume.flags)) (omega arith) clear in
      let within : c ≤ d = FirstFree-le v.fs_bitmap s c d first before clear in
      let lt : c < v.fs_head.clu_cnt = omega (arith, within) in
      let (q, table) = read_table_at v co c p lt in
      elim (Bool-cases (is_whole v c)) [
        | inl done ↦ (
          q,
          c,
          found_whole fuel s c (table_of v c) (at v p) (at v q) found table done,
          record {
            behind = first.behind;
            inside = lt;
            whole = done;
            least = λ c' lo hi. used-is_whole c' (omega (arith, hi, lt)) (first.least c' lo hi);
          },
        )
        | inr part ↦
            let other : c ≢ d =
              λ e. absurd (ground (arith, sym part ∙ ap (is_whole v) e ∙ whole)) in
            let (q', c', eq, f) =
              search_whole fuel c q d (omega (arith, rounds, first.behind))
                (omega (arith, within, other)) inside
                (byte_of_free v.fs_bitmap c co.volume.flag_bytes first.free) whole in
            (
              q',
              c',
              found_part fuel s c (table_of v c) (at v p) (at v q) found table part ∙ eq,
              FirstWhole-behind s c c' first part lt f,
            )
      ]

-- dev_full_free_cluster on a volume whose bitmap agrees with its tables of owners, when byte 0 of
-- the bitmap is not full and some cluster behind cluster 0 has no owner: it ends within one round
-- for each cluster up to that one, moves the stream only, and returns the first such cluster.
pub full_free_cluster_lem :
    (v : Volume) (fuel d : ℕ)
    → Coherent v
    → get_or v.fs_bitmap 0 0 ≢ 255
    → 0 < d
    → d < v.fs_head.clu_cnt
    → d ≤ fuel
    → is_whole v d ≡ true
    → (q c : ℕ) × (full_free_cluster fuel 0 v ≡ ok c (at v q)) × FirstWhole v 0 c
full_free_cluster_lem v fuel d co room positive inside rounds whole =
    search_whole v co fuel 0 v.dev.pos d (omega (arith, rounds)) positive inside room whole
