-- ===== src/Clrs/Second.antt =====
-- dev_tbl_save_sec and dev_tbl_load_sec: the second stage of a file's list of clusters, in the blocks
-- of a cluster of its own.
use fcfs.Base.{
  ℕ, zero, suc, ◌+◌, ◌-◌, ◌*◌, ◌/◌, ◌^◌, ◌≤◌, ◌<◌, ◌≡◌, refl, ap, ◌∙◌, List, [], ◌∷◌, ◌++◌, All,
  arith, length, take, drop,
}
use fcfs.Base.Bytes.{to_le, from_le, from_le-to_le}
use fcfs.Base.Monad.{Run, ok}
use fcfs.Volume.{Volume, ClrsCache, lblk_sz}
use fcfs.Device.{at}
use fcfs.Layout.{IsVolume, IsVolume-kept}
use fcfs.Clrs.{with_cache, load_blocks, word_bytes, words, save_sec, load_sec}
use fcfs.Clrs.SecondBlocks.{Saved, load_blocks-Spread, save_blocks-Saved}

four_more : ℕ → ℕ
four_more n = suc (suc (suc (suc n)))

length-word_bytes : (ws : List ℕ) → length (word_bytes ws) ≡ 4 * length ws
length-word_bytes [] = refl
length-word_bytes (w ∷ ws) = omega (arith, length-word_bytes ws)

-- The words are read back from as many bytes as they take.
words-word_bytes :
    (k n : ℕ) (ws : List ℕ)
    → 4 * k ≤ n
    → k ≤ length ws
    → All (λ w. w < 2 ^ 32) ws
    → words k (take n (word_bytes ws)) ≡ take k ws
unfolding four_more
words-word_bytes zero n ws room few small = refl
words-word_bytes (suc k) n [] room few small = absurd (omega (arith, few))
words-word_bytes (suc k) n (w ∷ ws) room few (small, later) =
    let size : n ≡ four_more (n - 4) = omega (arith, room) in
    let here : from_le (to_le 4 w) ≡ w = from_le-to_le 4 w small in
    ap (λ j. words (suc k) (take j (word_bytes (w ∷ ws)))) size
    ∙ (λ i. here i ∷ words k (take (n - 4) (word_bytes ws)))
    ∙ ap (λ l. w ∷ l)
        (words-word_bytes k (n - 4) ws (omega (arith, room)) (omega (arith, few)) later)

-- How many words the blocks that are saved have room for.
abbrev pub saved_words : Volume → ℕ
saved_words v = (6 * lblk_sz v - 4) / 4

load_sec_step :
    (w u : Volume) (cid : ℕ) (buf : List ℕ)
    → load_blocks 6 cid 1 w ≡ ok buf u
    → load_sec cid w
      ≡ ok (from_le (take 4 buf)) (
          with_cache u (record u.clrs_cache {
            s1_cl = words (saved_words w) (drop 4 buf);
            s1_cnt = from_le (take 4 buf);
          }))
unfolding load_sec
load_sec_step w u cid buf loaded = rw loaded refl

-- The buffer of dev_tbl_save_sec.
abbrev pub second_buf : ClrsCache → List ℕ
second_buf c = to_le 4 c.s1_cnt ++ word_bytes c.s1_cl

-- What dev_tbl_load_sec makes of the front of the buffer.
front_of_buf :
    (c : ClrsCache) (n : ℕ)
    → 4 ≤ n
    → take n (second_buf c) ≡ to_le 4 c.s1_cnt ++ take (n - 4) (word_bytes c.s1_cl)
unfolding four_more
front_of_buf c n big =
    ap (λ j. take j (second_buf c)) {x = n} {y = four_more (n - 4)} (omega (arith, big))

-- What dev_tbl_load_sec leaves when it has read `buf` of blocks of `l` bytes.
abbrev after_load : Volume → ClrsCache → ℕ → List ℕ → Run Volume ℕ
after_load u c l buf = ok (from_le (take 4 buf)) (
    with_cache u
      (record c { s1_cl = words ((6 * l - 4) / 4) (drop 4 buf); s1_cnt = from_le (take 4 buf) }))

load_front :
    (u : Volume) (c : ClrsCache) (l : ℕ)
    → 1 ≤ l
    → c.s1_cnt < 2 ^ 32
    → All (λ w. w < 2 ^ 32) c.s1_cl
    → 6 * l ≤ 4 + 4 * length c.s1_cl
    → after_load u c l (take (6 * l) (second_buf c))
      ≡ ok c.s1_cnt (with_cache u (record c { s1_cl = take ((6 * l - 4) / 4) c.s1_cl }))
load_front u c l some_byte count words_small enough =
    let n : ℕ = 6 * l - 4 in
    let back : words (n / 4) (take n (word_bytes c.s1_cl)) ≡ take (n / 4) c.s1_cl =
      words-word_bytes (n / 4) n c.s1_cl (omega arith) (omega (arith, enough)) words_small in
    let number : from_le (to_le 4 c.s1_cnt) ≡ c.s1_cnt = from_le-to_le 4 c.s1_cnt count in
    ap (after_load u c l) (front_of_buf c (6 * l) (omega (arith, some_byte))) ∙ λ i.
    ok (number i) (with_cache u (record c { s1_cl = back i; s1_cnt = number i }))

-- dev_tbl_save_sec to a cluster of a volume in order and then dev_tbl_load_sec of it, when the count
-- and the numbers of the second stage have 32 bits and the buffer fills six blocks: the first returns
-- 0 and changes no block but those six, and the second returns the count and leaves the count
-- and as many of the numbers in the cache as six blocks have room for behind the count.
pub save_sec-load_sec :
    (v : Volume) (cid : ℕ)
    → IsVolume v
    → cid < v.fs_head.clu_cnt
    → v.clrs_cache.s1_cnt < 2 ^ 32
    → All (λ w. w < 2 ^ 32) v.clrs_cache.s1_cl
    → 6 * lblk_sz v ≤ 4 + 4 * length v.clrs_cache.s1_cl
    → (w : Volume) × (p : ℕ) × (save_sec cid v ≡ ok 0 w)
      × Saved v cid 1 6 (second_buf v.clrs_cache) w
      × (load_sec cid w
          ≡ ok v.clrs_cache.s1_cnt (
              with_cache
                (at w p)
                (record v.clrs_cache { s1_cl = take (saved_words v) v.clrs_cache.s1_cl })))
unfolding save_sec
save_sec-load_sec v cid is small count words_small enough =
    let c : ClrsCache = v.clrs_cache in
    let l : ℕ = lblk_sz v in
    let (w, eq, s) =
      save_blocks-Saved v 6 cid 1 (second_buf c) is small (omega arith)
        (omega (arith, enough, length-word_bytes c.s1_cl)) in
    let head : w.fs_head ≡ v.fs_head = ap (λ y. y.fs_head) s.rest in
    let lblk : lblk_sz w ≡ lblk_sz v = ap (λ h. h.phy_blk_sz * h.blk_sz) head in
    let flags : w.fs_bitmap ≡ v.fs_bitmap = ap (λ y. y.fs_bitmap) s.rest in
    let is_w : IsVolume w =
      IsVolume-kept v w head s.same_size (ap length flags) (rw flags is.flag_bytes) is in
    let cache : w.clrs_cache ≡ c = ap (λ y. y.clrs_cache) s.rest in
    let (p, loaded) =
      load_blocks-Spread w 6 cid 1 (second_buf c) is_w (rw head small) (omega arith) s.spread in
    (
      w,
      p,
      rw eq refl,
      s,
      load_sec_step w (at w p) cid _ loaded
          ∙ (λ i. after_load (at w p) (cache i) (lblk i) (take (6 * lblk i) (second_buf c)))
          ∙ load_front (at w p) c l (omega (arith, is.fits)) count words_small enough,
    )
