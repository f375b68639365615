-- ===== src/Fmt/Layout.antt =====
-- The regions of a drive as a mount expects them behind the formatter.
use fcfs.Base.{
  ℕ, All, zero, suc, ◌+◌, ◌*◌, ◌^◌, ◌≤◌, ◌<◌, ◌≡◌, refl, some, List, arith, length, replicate,
}
use fcfs.Structs.{Head, BlockList, sizeof_head, sizeof_table}
use fcfs.Ctable.{decode}
use fcfs.Ctable.Roundtrip.{FitsEntry, IsBlockList}
use fcfs.Volume.{Volume, IsCipher}
use fcfs.Device.{bytes_at}
use fcfs.Mount.{decode_head, decode_table}
use fcfs.Fmt.{numbered_free}
use fcfs.Fmt.Codec.{IsHead, root_only}

-- A head whose regions hold what is written to them, in order and on a drive of `size` bytes.
pub record IsLayout (h : Head) (size : ℕ) : Type 0 where
  pub fields : IsHead h
  pub head : sizeof_head ≤ h.blk_sz * h.phy_blk_sz
  pub bitmap : h.bmp_len * (h.blk_sz * h.phy_blk_sz) < 2 ^ 31
  pub table : sizeof_table ≤ h.tbl_len * (h.blk_sz * h.phy_blk_sz)
  pub table_small : h.tbl_len * (h.blk_sz * h.phy_blk_sz) < 2 ^ 31
  pub order : 1 + h.bmp_len + h.tbl_len ≤ h.dta_beg
  pub seek : h.dta_beg * (h.blk_sz * h.phy_blk_sz) < 2 ^ 32
  pub inside : h.dta_beg * (h.blk_sz * h.phy_blk_sz) + 8 * (h.blk_sz * h.phy_blk_sz) ≤ size

-- The ciphers of the blocks that the formatter encrypts in one call.
pub record IsDriveCipher (v : Volume) (h : Head) : Type 0 where
  pub block : IsCipher (h.blk_sz * h.phy_blk_sz) v.ciph
  pub table : IsCipher (h.tbl_len * (h.blk_sz * h.phy_blk_sz)) v.ciph
  pub cluster : IsCipher (h.blk_sz * h.phy_blk_sz * 7) v.ciph

-- The table of owners of a formatted drive's cluster 0.
abbrev pub root_list : Head → BlockList
root_list h = record { hashsum = h.ctime; entrs = numbered_free 0 7 }

pub root_list-IsBlockList : (h : Head) → IsBlockList (root_list h).entrs
root_list-IsBlockList h = record { count = refl; fits = small 0 7 (omega arith) }
  where
    small : (i k : ℕ) → i + k < 256 → All FitsEntry (numbered_free i k)
    small i zero lt = tt
    small i (suc k) lt =
        (record { fid = omega arith; num = omega arith }, small (i + 1) k (omega arith))

-- The drive `w` holds the regions for the head `h`, under the cipher of `v`.
pub record Formatted (h : Head) (v w : Volume) : Type 0 where
  pub head_bytes : List ℕ
  pub head_read : v.ciph.decrypt (bytes_at w.dev.byte 0 (h.blk_sz * h.phy_blk_sz)) ≡ some head_bytes
  pub head_size : sizeof_head ≤ length head_bytes
  pub head_is : decode_head head_bytes ≡ h
  pub bitmap_read :
      bytes_at w.dev.byte (h.blk_sz * h.phy_blk_sz) (h.bmp_len * (h.blk_sz * h.phy_blk_sz))
      ≡ replicate (h.bmp_len * (h.blk_sz * h.phy_blk_sz)) 0
  pub table_bytes : List ℕ
  pub table_read :
      v.ciph.decrypt (
        bytes_at w.dev.byte
          (h.blk_sz * h.phy_blk_sz + h.bmp_len * (h.blk_sz * h.phy_blk_sz))
          (h.tbl_len * (h.blk_sz * h.phy_blk_sz)))
      ≡ some table_bytes
  pub table_size : sizeof_table ≤ length table_bytes
  pub table_is : decode_table table_bytes ≡ root_only h
  pub owners : List ℕ
  pub owners_are : decode owners ≡ root_list h
  pub owners_read :
      bytes_at w.dev.byte (h.dta_beg * (h.blk_sz * h.phy_blk_sz)) (h.blk_sz * h.phy_blk_sz) ≡ owners
  pub coded : List ℕ
  pub coded_is : v.ciph.encrypt (replicate (h.blk_sz * h.phy_blk_sz * 7) 0) ≡ some coded
  pub coded_read :
      bytes_at w.dev.byte
        (h.dta_beg * (h.blk_sz * h.phy_blk_sz) + h.blk_sz * h.phy_blk_sz)
        (h.blk_sz * h.phy_blk_sz * 7)
      ≡ coded
  pub behind :
      (q n : ℕ)
      → h.dta_beg * (h.blk_sz * h.phy_blk_sz) + 8 * (h.blk_sz * h.phy_blk_sz) ≤ q
      → bytes_at w.dev.byte q n ≡ bytes_at v.dev.byte q n
  pub rest : w ≡ record v { dev = w.dev }
  pub same_size : w.dev.size ≡ v.dev.size
