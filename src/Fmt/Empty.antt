-- ===== src/Fmt/Empty.antt =====
-- The directory in the root of a new file system: it has no entry.
use fcfs.Base.{
  get_elem?-last, ℕ, zero, suc, ◌+◌, ◌*◌, ◌≤◌, ◌<◌, ◌≡◌, refl, ap, ◌∙◌, sym, false, some, none, inr,
  List, [], ◌∷◌, ◌++◌, arith, length, take, replicate, ltb, le→ltb, length-replicate,
}
use fcfs.Base.Bytes.{from_le}
use fcfs.Base.Monad.{ok}
use fcfs.Structs.{BlkInfo, TableEntry}
use fcfs.Volume.{Volume, lblk_sz}
use fcfs.Device.{at, bytes_at, block_pos}
use fcfs.Device.Blocks.{InVolume, crypted, raw}
use fcfs.Seq.{find_num, place}
use fcfs.Clrs.{with_cache}
use fcfs.Cache.{Maps, Driver, decimal}
use fcfs.FileSeq.Cached.{miss}
use fcfs.Dir.{dir_of, read_dir}
use fcfs.Dir.Loops.{read_blocks-IsFile}
use fcfs.Transfer.Contents.{IsFile, blocks_of}
use fcfs.Transfer.Loops.{over}
use fcfs.Fmt.Root.{root_links, root_cluster, HasRoot, read_seq-root}

abbrev root_block : ℕ → BlkInfo
root_block i = record { cid = 0; bid = i + 1; num = i }

root_place : (i : ℕ) → i < 7 → place 7 root_links i ≡ some (some (root_block i))
unfolding find_num
root_place zero lt = refl
root_place (suc zero) lt = refl
root_place (suc (suc zero)) lt = refl
root_place (suc (suc (suc zero))) lt = refl
root_place (suc (suc (suc (suc zero)))) lt = refl
root_place (suc (suc (suc (suc (suc zero))))) lt = refl
root_place (suc (suc (suc (suc (suc (suc zero)))))) lt = refl
root_place (suc (suc (suc (suc (suc (suc (suc i))))))) lt = absurd (omega arith)

-- The blocks of data of cluster 0 lie on the device, and decrypted they are zeros.
pub record HasZeros (v : Volume) : Type 0 where
  pub blocks : (b : ℕ) → b < 8 → InVolume v 0 b
  pub zeros : (i : ℕ) → i < 7 → v.ciph.decrypt (raw v 0 (i + 1)) ≡ some (replicate (lblk_sz v) 0)

bytes_at-zeros : (p n : ℕ) → bytes_at (λ a. 0) p n ≡ replicate n 0
unfolding bytes_at
bytes_at-zeros p zero = refl
bytes_at-zeros p (suc n) = ap (λ l. 0 ∷ l) (bytes_at-zeros (p + 1) n)

root-IsFile : (v : Volume) → HasZeros v → IsFile v root_links 7 (blocks_of (lblk_sz v) (λ a. 0))
root-IsFile v is = record {
  blk = root_block;
  placed = λ i lt. record {
    found = root_place i lt;
    block = is.blocks (i + 1) (omega arith);
    small = omega arith;
  };
  apart = λ i j hi hj ne. inr (λ e. ne (omega arith));
  holds =
      λ i lt. crypted (is.zeros i lt ∙ ap some (sym (bytes_at-zeros (i * lblk_sz v) (lblk_sz v))));
}

from_le-zeros : (k n : ℕ) → from_le (take k (replicate n 0)) ≡ 0
from_le-zeros zero n = refl
from_le-zeros (suc k) zero = refl
from_le-zeros (suc k) (suc n) = omega (arith, from_le-zeros k n)

dir_of-zeros : (n : ℕ) → 4 ≤ n → dir_of (replicate n 0) ≡ some none
unfolding dir_of
dir_of-zeros n room =
    let size : ltb (length (replicate {A = ℕ} n 0)) 4 ≡ false =
      le→ltb _ _ (omega (arith, length-replicate {A = ℕ} n 0)) in
    rw (size, from_le-zeros 4 n) refl

module _ (m : Maps) (d : Driver m) (es : List TableEntry) (sum : ℕ) (t : m.seqs.Map) where
  -- dev_read_dir of the root is NULL when its list of blocks is read for the first time.
  pub read_dir-root :
      HasRoot d.vol es sum
      → HasZeros d.vol
      → m.seqs.look d.map_seq (decimal 0) ≡ none
      → m.seqs.put d.map_seq (decimal 0) (length d.lists) ≡ some t
      → (d2 : Driver m) × (read_dir m 0 d ≡ ok none d2)
  unfolding read_dir
  read_dir-root root zeros absent put =
      let v : Volume = at (with_cache d.vol root_cluster) (block_pos d.vol 0 0 + lblk_sz d.vol) in
      let d1 : Driver m = record d {
        vol = v;
        lists = d.lists ++ some root_links ∷ [];
        map_seq = t;
      } in
      let f : IsFile v root_links 7 (blocks_of (lblk_sz v) (λ a. 0)) = root-IsFile v (record {
        blocks = λ b lt.
            let i = zeros.blocks b lt in
            record { nonneg = i.nonneg; addressed = i.addressed; inside = i.inside };
        zeros = zeros.zeros;
      }) in
      let (p, read) =
        read_blocks-IsFile m (length d.lists) root_links d1 7 0 7 (λ a. 0)
          (get_elem?-last d.lists (some root_links)) f (omega arith) in
      let empty : dir_of (bytes_at (λ a. 0) (0 * lblk_sz v) (7 * lblk_sz v)) ≡ some none =
        ap dir_of (bytes_at-zeros (0 * lblk_sz v) (7 * lblk_sz v))
        ∙ dir_of-zeros (7 * lblk_sz v) (omega (arith, root.fits)) in
      (
        over d1 (at d1.vol p),
        rw (miss m 0 d root_links v t absent (read_seq-root d.vol es sum root) put, read, empty)
            refl,
      )
