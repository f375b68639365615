-- ===== src/Fmt/Fresh.antt =====
-- The file system on a drive that has been formatted and mounted.
use Prim.Native.Nat.{bit_xor}
use fcfs.Base.{
  ℕ, zero, suc, ◌+◌, ◌*◌, ◌/◌, ◌%◌, ◌^◌, ◌≤◌, ◌<◌, ◌≡◌, refl, ap, ◌∙◌, sym, subst, Bool, true,
  false, List, not, arith, length, replicate, length-replicate, get_or, ◌==◌, if◌then◌else◌,
  ==_refl,
}
use native.Mathlib.Nat.{mul_comm}
use fcfs.Base.Bytes.{IsBytes}
use fcfs.Base.Xor.{bit_xor_zero}
use fcfs.Base.Words.{u64}
use fcfs.Structs.{Head, BlockList}
use fcfs.Volume.{Volume, lblk_sz}
use fcfs.Layout.{IsVolume}
use fcfs.Device.{bytes_at, block_pos}
use fcfs.Device.Blocks.{raw}
use fcfs.Bitmap.{has_free}
use fcfs.Bitmap.Bits.{mask_bit-zero}
use fcfs.Bitmap.Update.{used}
use fcfs.Ctable.{sum_fids, get_hashsum, decode, no_owners}
use fcfs.Ctable.View.{table_of}
use fcfs.Ctable.Roundtrip.{IsBlockList}
use fcfs.Clusters.Coherent.{Coherent}
use fcfs.Mount.Found.{mounted}
use fcfs.Fmt.Layout.{IsLayout, Formatted, root_list, root_list-IsBlockList}
use fcfs.Fmt.Mounted.{fresh, fresh_bitmap}

-- The clusters lie on the drive, an `int` holds its addresses, and the bitmap has a flag for each.
pub record HasClusters (h : Head) (size : ℕ) : Type 0 where
  pub flags : h.clu_cnt ≤ 8 * (h.bmp_len * (h.blk_sz * h.phy_blk_sz))
  pub on_device :
      h.dta_beg * (h.blk_sz * h.phy_blk_sz) + 8 * (h.blk_sz * h.phy_blk_sz) * h.clu_cnt ≤ size
  pub addressed : size < 2 ^ 31

abbrev is_accepted : Head → BlockList → Bool
is_accepted h bl = bl.hashsum == u64 (bit_xor (sum_fids 0 bl.entrs) h.ctime)

-- Nothing that stands on the drive at the place of a later cluster's table has the checksum that a
-- table of the new file system would have.
pub record IsCleared (h : Head) (byte : ℕ → ℕ) : Type 0 where
  pub stale :
      (c : ℕ)
      → 1 ≤ c
      → c < h.clu_cnt
      → is_accepted h (
          decode (
            bytes_at byte
              (h.dta_beg * (h.blk_sz * h.phy_blk_sz) + 8 * (h.blk_sz * h.phy_blk_sz) * c)
              (h.blk_sz * h.phy_blk_sz)))
        ≡ false

get_or-zeros : (n k : ℕ) → get_or (replicate {A = ℕ} n 0) k 0 ≡ 0
get_or-zeros zero k = refl
get_or-zeros (suc n) zero = refl
get_or-zeros (suc n) (suc k) = get_or-zeros n k

used-zeros : (n c : ℕ) → used (replicate n 0) c ≡ false
unfolding used
used-zeros n c = rw (get_or-zeros n (c / 8), mask_bit-zero (c % 8) (omega arith)) refl

IsBytes-zeros : (n : ℕ) → IsBytes (replicate n 0)
IsBytes-zeros zero = tt
IsBytes-zeros (suc n) = (omega arith, IsBytes-zeros n)

abbrev pub fresh_volume : Head → Volume → Volume → Volume
fresh_volume h u w = mounted (record u { dev = w.dev }) (fresh u h) (fresh_bitmap h)

fresh-IsVolume :
    (h : Head) (v w u : Volume)
    → IsLayout h v.dev.size
    → HasClusters h v.dev.size
    → Formatted h v w
    → IsVolume (fresh_volume h u w)
fresh-IsVolume h v w u is has on =
    let c : h.phy_blk_sz * h.blk_sz ≡ h.blk_sz * h.phy_blk_sz = mul_comm _ _ in
    let size : length (fresh_bitmap h) ≡ h.bmp_len * (h.blk_sz * h.phy_blk_sz) =
      length-replicate {A = ℕ} _ 0 in
    record {
      fits = rw c (omega (arith, is.head));
      flags = rw size has.flags;
      flag_bytes = IsBytes-zeros _;
      flag_region = rw c (omega (arith, has.flags));
      before_data = omega (arith, is.order);
      on_device = rw (c, on.same_size) has.on_device;
      addressed = rw on.same_size has.addressed;
    }

-- the view of a table whose bytes are known
table_of_bytes :
    (v : Volume) (c p l : ℕ)
    → block_pos v c 0 ≡ p
    → lblk_sz v ≡ l
    → (bs : List ℕ) → bytes_at v.dev.byte p l ≡ bs
    → table_of v c ≡ (if is_accepted v.fs_head (decode bs) then decode bs else no_owners)
unfolding table_of get_hashsum
table_of_bytes v c p l at_p at_l bs e =
    let here : raw v c 0 ≡ bs = (λ i. bytes_at v.dev.byte (at_p i) (at_l i)) ∙ e in rw here refl

root_list_accepted : (h : Head) → h.ctime < 2 ^ 64 → is_accepted h (root_list h) ≡ true
unfolding sum_fids
root_list_accepted h time =
    let sum : bit_xor 0 h.ctime ≡ h.ctime = bit_xor_zero h.ctime in
    let word : u64 h.ctime ≡ h.ctime = omega arith in rw (sum, word) (==_refl h.ctime)

-- A table with a free block.
record IsFreeTable (bl : BlockList) : Type 0 where
  pub shape : IsBlockList bl.entrs
  pub free : has_free bl.entrs ≡ true

root_list-IsFreeTable : (h : Head) → IsFreeTable (root_list h)
unfolding has_free
root_list-IsFreeTable h = record { shape = root_list-IsBlockList h; free = refl }

no_owners-IsFreeTable : IsFreeTable no_owners
unfolding has_free
no_owners-IsFreeTable = record { shape = record { count = refl; fits = omega arith }; free = refl }

module _ (h : Head) (v w u : Volume) (is : IsLayout h v.dev.size) (on : Formatted h v w) where
  comm : h.phy_blk_sz * h.blk_sz ≡ h.blk_sz * h.phy_blk_sz
  comm = mul_comm _ _

  pub first_table : table_of (fresh_volume h u w) 0 ≡ root_list h
  first_table =
      let l : ℕ = h.blk_sz * h.phy_blk_sz in
      table_of_bytes (fresh_volume h u w) 0 (h.dta_beg * l) l (rw comm (omega arith)) comm on.owners
        on.owners_read
      ∙ rw (on.owners_are, root_list_accepted h is.fields.ctime) refl

  later_table :
      (c : ℕ)
      → 1 ≤ c
      → c < h.clu_cnt
      → IsCleared h v.dev.byte
      → table_of (fresh_volume h u w) c ≡ no_owners
  later_table c pos lt cleared =
      let l : ℕ = h.blk_sz * h.phy_blk_sz in
      let p : ℕ = h.dta_beg * l + 8 * l * c in
      table_of_bytes (fresh_volume h u w) c p l (rw comm (omega arith)) comm
        (bytes_at v.dev.byte p l) (on.behind p l (grind arith))
      ∙ rw (cleared.stale c pos lt) refl

  free_tables :
      (c : ℕ)
      → c < h.clu_cnt
      → IsCleared h v.dev.byte
      → IsFreeTable (table_of (fresh_volume h u w) c)
  free_tables zero lt cleared = subst IsFreeTable (sym first_table) (root_list-IsFreeTable h)
  free_tables (suc c) lt cleared =
      subst IsFreeTable (sym (later_table (suc c) (omega arith) lt cleared)) no_owners-IsFreeTable

  -- The bitmap of the new file system agrees with its tables of owners.
  pub fresh-Coherent :
      HasClusters h v.dev.size → IsCleared h v.dev.byte → Coherent (fresh_volume h u w)
  fresh-Coherent has cleared = record {
    volume = fresh-IsVolume h v w u is has on;
    tables = λ c lt. (free_tables c lt cleared).shape;
    flags = λ c lt.
        used-zeros (h.bmp_len * (h.blk_sz * h.phy_blk_sz)) c
        ∙ ap not (sym (free_tables c lt cleared).free);
  }
