-- ===== src/Fmt/Listing.antt =====
-- The listing of the root of a drive that the formatter has written. The formatter encrypts the seven
-- blocks of data of cluster 0 in one call, and the driver decrypts them one by one.
use fcfs.Base.{
  ℕ, zero, suc, ◌+◌, ◌-◌, ◌*◌, ◌^◌, ◌≤◌, ◌<◌, ◌≡◌, refl, ap, ◌∙◌, sym, some, List, [], ◌∷◌, ◌++◌,
  arith, length, take, drop, replicate, length-replicate, take-append,
}
use fcfs.Volume.{Cipher, IsCipher, Volume}
use native.Mathlib.Nat.{mul_comm}
use fcfs.Structs.{Head, table_len}
use fcfs.Fmt.Codec.{no_links}
use fcfs.Device.{bytes_at}
use fcfs.Device.Blocks.{InVolume}
use fcfs.Transfer.Ranges.{range, take-bytes_at, drop-bytes_at}
use fcfs.Persist.Regions.{mul_mono}
use fcfs.Fmt.Layout.{IsLayout, Formatted}
use fcfs.Fmt.Fresh.{HasClusters, fresh_volume, first_table}
use fcfs.Fmt.Root.{no_clusters, HasRoot}
use fcfs.Fmt.Empty.{HasZeros}

-- A cipher in the mode ECB with blocks that divide `l`: what stands in front of a boundary is
-- encrypted as if it stood alone, and so is what stands behind it.
pub record IsEcb (l : ℕ) (c : Cipher) : Type 0 where
  pub joined :
      (bs rest cs : List ℕ)
      → length bs ≡ l
      → c.encrypt (bs ++ rest) ≡ some cs
      → (x y : List ℕ) × (cs ≡ x ++ y) × (c.encrypt bs ≡ some x) × (c.encrypt rest ≡ some y)

replicate_add : (m n : ℕ) → replicate {A = ℕ} (m + n) 0 ≡ replicate m 0 ++ replicate n 0
replicate_add zero n = ap (λ k. replicate {A = ℕ} k 0) {x = 0 + n} {y = n} (omega arith)
replicate_add (suc m) n =
    ap (λ k. replicate {A = ℕ} k 0) {x = suc m + n} {y = suc (m + n)} (omega arith)
    ∙ ap (λ l. 0 ∷ l) (replicate_add m n)

-- the zeros of `k` blocks, the first one cut off
zeros_split : (l k : ℕ) → replicate {A = ℕ} (l * suc k) 0 ≡ replicate l 0 ++ replicate (l * k) 0
zeros_split l k =
    ap (λ n. replicate {A = ℕ} n 0) {x = l * suc k} {y = l + l * k} (grind arith)
    ∙ replicate_add l (l * k)

drop-past : (xs ys : List ℕ) (n : ℕ) → drop (length xs + n) (xs ++ ys) ≡ drop n ys
drop-past [] ys n = ap (λ k. drop k ys) {x = 0 + n} {y = n} (omega arith)
drop-past (x ∷ xs) ys n =
    ap (λ k. drop k (x ∷ (xs ++ ys))) {x = suc (length xs) + n} {y = suc (length xs + n)}
      (omega arith)
    ∙ drop-past xs ys n

-- the first of several blocks of zeros that were encrypted in one call, and the others
record FirstBlock (c : Cipher) (l k : ℕ) (cs : List ℕ) : Type 0 where
  pub front : List ℕ
  pub back : List ℕ
  pub both : cs ≡ front ++ back
  pub size : length front ≡ l
  pub plain : c.decrypt front ≡ some (replicate l 0)
  pub others : c.encrypt (replicate (l * k) 0) ≡ some back

ecb-FirstBlock :
    (c : Cipher) (l k : ℕ) (cs : List ℕ)
    → IsEcb l c
    → IsCipher l c
    → c.encrypt (replicate (l * suc k) 0) ≡ some cs
    → FirstBlock c l k cs
ecb-FirstBlock c l k cs ecb is e =
    let zeros : length (replicate {A = ℕ} l 0) ≡ l = length-replicate {A = ℕ} l 0 in
    let (x, y, both, front, back) =
      ecb.joined (replicate l 0) (replicate (l * k) 0) cs zeros
        (ap c.encrypt (sym (zeros_split l k)) ∙ e) in
    record {
      front = x;
      back = y;
      both = both;
      size = is.same_length (replicate l 0) x zeros front;
      plain = is.undone (replicate l 0) x zeros front;
      others = back;
    }

-- Each of the blocks that were encrypted in one call is decrypted alone.
ecb_blocks :
    (c : Cipher) (l k i : ℕ) (cs : List ℕ)
    → IsEcb l c
    → IsCipher l c
    → c.encrypt (replicate (l * k) 0) ≡ some cs
    → i < k
    → c.decrypt (take l (drop (i * l) cs)) ≡ some (replicate l 0)
ecb_blocks c l zero i cs ecb is e lt = absurd (omega arith)
ecb_blocks c l (suc k) zero cs ecb is e lt =
    let f : FirstBlock c l k cs = ecb-FirstBlock c l k cs ecb is e in
    ap c.decrypt (
      ap (λ n. take l (drop n cs)) {x = 0 * l} {y = 0} (omega arith)
      ∙ ap (take l) f.both
      ∙ ap (λ n. take n (f.front ++ f.back)) (sym f.size)
      ∙ take-append f.front f.back)
    ∙ f.plain
ecb_blocks c l (suc k) (suc i) cs ecb is e lt =
    let f : FirstBlock c l k cs = ecb-FirstBlock c l k cs ecb is e in
    ap c.decrypt (
      ap (take l) (
        ap (drop (suc i * l)) f.both
        ∙ ap (λ n. drop n (f.front ++ f.back)) {x = suc i * l} {y = length f.front + i * l}
            (grind (arith, f.size))
        ∙ drop-past f.front f.back (i * l)))
    ∙ ecb_blocks c l k i f.back ecb is f.others (omega arith)

-- The blocks of data of the root on a formatted drive.
module _ (h : Head) (v w u : Volume) (is : IsLayout h v.dev.size) (on : Formatted h v w)
    (has : HasClusters h v.dev.size) where
  abbrev l : ℕ
  l = h.blk_sz * h.phy_blk_sz

  same_block : h.phy_blk_sz * h.blk_sz ≡ l
  same_block = mul_comm _ _

  root_blocks : (b : ℕ) → b < 8 → InVolume (fresh_volume h u w) 0 b
  root_blocks b lt =
      let last : (b + 1) * l ≤ 8 * l = mul_mono l (b + 1) 8 (omega arith) in
      let end : h.dta_beg * l + 8 * l * 0 + l * b + l ≤ w.dev.size =
        rw on.same_size (grind (arith, is.inside)) in
      let size : w.dev.size < 2 ^ 31 = rw on.same_size has.addressed in
      record {
        nonneg = omega arith;
        addressed = rw same_block (omega (arith, is.head));
        inside = rw same_block end;
      }

  root_bytes :
      (i : ℕ)
      → i < 7
      → bytes_at w.dev.byte (h.dta_beg * l + 8 * l * 0 + l * (i + 1)) l
        ≡ take l (drop (i * l) on.coded)
  root_bytes i lt =
      let rest : (i + 1) * l ≤ 7 * l = mul_mono l (i + 1) 7 (omega arith) in
      let f : ℕ → ℕ = w.dev.byte in
      let p : ℕ = h.dta_beg * l + l in
      range f {p = h.dta_beg * l + 8 * l * 0 + l * (i + 1)} {q = p + i * l} {n = l} {k = l}
        (grind arith) refl
      ∙ sym (take-bytes_at f (p + i * l) l (l * 7 - i * l) (grind arith))
      ∙ ap (take l)
          (sym (drop-bytes_at f p (i * l) (l * 7) (grind arith)) ∙ ap (drop (i * l)) on.coded_read)

  pub fresh-HasZeros :
      IsEcb l v.ciph → IsCipher l v.ciph → u.ciph ≡ v.ciph → HasZeros (fresh_volume h u w)
  fresh-HasZeros ecb cipher same = record {
    blocks = root_blocks;
    zeros = λ i lt.
        rw (same, same_block)
          (ap v.ciph.decrypt (root_bytes i lt)
            ∙ ecb_blocks v.ciph l 7 i on.coded ecb cipher on.coded_is lt);
  }

  pub fresh-HasRoot :
      u.clrs_cache ≡ no_clusters
      → HasRoot (fresh_volume h u w) (replicate (table_len - 1) no_links) h.ctime
  fresh-HasRoot cache = record {
    entrs = refl;
    cache = cache;
    owners = first_table h v w u is on;
    block = root_blocks 0 (omega arith);
    fits = rw same_block (omega (arith, is.head));
  }
