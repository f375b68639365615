-- ===== src/Fmt/Image.antt =====
-- What the formatter writes to a drive is read back from it.
use fcfs.Base.{
  ℕ, ◌+◌, ◌-◌, ◌*◌, ◌^◌, ◌≤◌, ◌<◌, ◌≡◌, refl, ap, ◌∙◌, some, false, List, arith, length, take-all,
  replicate, min, ==_refl, length-replicate,
}
use fcfs.Base.Words.{u32, is_neg}
use fcfs.Base.Monad.{ok}
use fcfs.Structs.{Head, label_length, sizeof_head}
use fcfs.Volume.{Volume}
use fcfs.Device.{at, stored, fwrite, padded}
use fcfs.Persist.Regions.{mul_mono}
use fcfs.Fmt.Layout.{IsLayout, IsDriveCipher, Formatted}
use fcfs.Fmt.Parts.{Parts, write_regions-Parts, head_block}
use fcfs.Fmt.Writes.{five_regions, behind_writes}
use fcfs.Fmt.{encode_head, label_of, write_exact, zeros, root_table, root_owners, write_regions}

write_exact-stored :
    (v : Volume) (bs : List ℕ)
    → v.dev.pos + length bs ≤ v.dev.size
    → write_exact bs v ≡ ok tt (stored v v.dev.pos bs)
unfolding write_exact fwrite
write_exact-stored v bs inside =
    let all : min (length bs) (v.dev.size - v.dev.pos) ≡ length bs = omega arith in
    rw (all, ==_refl, take-all (length bs) bs (omega arith)) refl

write_regions_step :
    (mem stack : ℕ → ℕ) (product : List ℕ) (h : Head) (v v1 v2 v3 v4 v5 : Volume)
    (label hb ch bm ft ct first cc : List ℕ)
    → label_of mem product ≡ some label
    → padded (h.blk_sz * h.phy_blk_sz) (encode_head mem label h) sizeof_head ≡ some hb
    → v.ciph.encrypt hb ≡ some ch
    → write_exact ch v ≡ ok tt v1
    → zeros (u32 (h.bmp_len * (h.blk_sz * h.phy_blk_sz))) ≡ some bm
    → write_exact bm v1 ≡ ok tt v2
    → root_table h (h.tbl_len * (h.blk_sz * h.phy_blk_sz)) ≡ some ft
    → v2.ciph.encrypt ft ≡ some ct
    → write_exact ct v2 ≡ ok tt v3
    → root_owners stack h (h.blk_sz * h.phy_blk_sz) ≡ some first
    → write_exact first (at v3 (u32 (h.dta_beg * (h.blk_sz * h.phy_blk_sz)))) ≡ ok tt v4
    → v4.ciph.encrypt (replicate (h.blk_sz * h.phy_blk_sz * 7) 0) ≡ some cc
    → write_exact cc v4 ≡ ok tt v5
    → write_regions mem stack product h v ≡ ok tt v5
unfolding write_regions
write_regions_step mem stack product h v v1 v2 v3 v4 v5 label hb ch bm ft ct first cc a b c d e f g
      i j k l m n =
    rw (a, b, c, d, e, f, g, i, j, k, l, m, n) refl

zeros-some : (n : ℕ) → n < 2 ^ 31 → zeros (u32 n) ≡ some (replicate n 0)
zeros-some n h =
    let same : u32 n ≡ n = omega arith in
    let sign : is_neg n ≡ false = ground arith in rw (same, sign) refl

module _ (mem stack : ℕ → ℕ) (product : List ℕ) (h : Head) (v : Volume) (start : v.dev.pos ≡ 0)
    (is : IsLayout h v.dev.size) (x : Parts mem stack product h v) where
  abbrev l : ℕ
  l = h.blk_sz * h.phy_blk_sz

  abbrev b : ℕ
  b = h.bmp_len * l

  abbrev t : ℕ
  t = h.tbl_len * l

  abbrev p : ℕ
  p = h.dta_beg * l

  abbrev v1 : Volume
  v1 = stored v v.dev.pos x.coded_head

  abbrev v2 : Volume
  v2 = stored v1 v1.dev.pos (replicate b 0)

  abbrev v3 : Volume
  v3 = stored v2 v2.dev.pos x.coded_table

  abbrev v4 : Volume
  v4 = stored v3 (u32 p) x.first

  abbrev v5 : Volume
  v5 = stored v4 v4.dev.pos x.coded

  order : l + b + t ≤ p
  order = omega (arith, mul_mono l (1 + h.bmp_len + h.tbl_len) h.dta_beg is.order)

  no_wrap : u32 p ≡ p
  no_wrap = omega (arith, is.seek)

  bitmap_size : length (replicate {A = ℕ} b 0) ≡ b
  bitmap_size = length-replicate {A = ℕ} b 0

  write_regions_runs : write_regions mem stack product h v ≡ ok tt v5
  write_regions_runs =
      write_regions_step mem stack product h v v1 v2 v3 v4 v5 x.label (head_block mem x.label h)
        x.coded_head (replicate b 0) x.fs_table x.coded_table x.first x.coded x.eq_label x.eq_head
        x.eq_coded_head
        (write_exact-stored v x.coded_head
          (omega (arith, order, start, x.size_coded_head, is.inside)))
        (zeros-some b is.bitmap)
        (write_exact-stored v1 (replicate b 0)
          (omega (arith, order, start, x.size_coded_head, bitmap_size, is.inside)))
        x.eq_table x.eq_coded_table
        (write_exact-stored v2 x.coded_table (
          omega
            (arith, order, start, x.size_coded_head, bitmap_size, x.size_coded_table, is.inside)))
        x.eq_first
        (write_exact-stored (at v3 (u32 p)) x.first
          (omega (arith, no_wrap, x.size_first, is.inside)))
        x.eq_coded
        (write_exact-stored v4 x.coded
          (omega (arith, no_wrap, x.size_first, x.size_coded, is.inside)))

  w2 : v2.dev.pos + length x.coded_table ≤ u32 p
  w2 = omega (arith, order, start, x.size_coded_head, bitmap_size, x.size_coded_table, no_wrap)

  v5-Formatted : IsDriveCipher v h → Formatted h v v5
  v5-Formatted cipher =
      let (head_at, bitmap_at, table_at, owners_at, coded_at) =
        five_regions v.dev.byte v.dev.pos v1.dev.pos v2.dev.pos (u32 p) v4.dev.pos x.coded_head
          (replicate b 0) x.coded_table x.first x.coded (omega arith) (omega arith) w2 (omega arith)
          0 l (l + b) p (p + l) l b t l (l * 7)
          (
            start,
            omega (arith, start, x.size_coded_head),
            omega (arith, start, x.size_coded_head, bitmap_size),
            no_wrap,
            omega (arith, no_wrap, x.size_first),
          )
          (x.size_coded_head, bitmap_size, x.size_coded_table, x.size_first, x.size_coded) in
      record {
        head_bytes = head_block mem x.label h;
        head_read =
            ap v.ciph.decrypt head_at
            ∙ cipher.block.undone (head_block mem x.label h) x.coded_head x.size_head
                x.eq_coded_head;
        head_size = omega (arith, is.head, x.size_head);
        head_is = x.head_is;
        bitmap_read = bitmap_at;
        table_bytes = x.fs_table;
        table_read =
            ap v.ciph.decrypt table_at
            ∙ cipher.table.undone x.fs_table x.coded_table x.size_table x.eq_coded_table;
        table_size = omega (arith, is.table, x.size_table);
        table_is = x.table_is;
        owners = x.first;
        owners_are = x.owners_are;
        owners_read = owners_at;
        coded = x.coded;
        coded_is = x.eq_coded;
        coded_read = coded_at;
        behind = λ q n far.
            behind_writes v.dev.byte v.dev.pos v1.dev.pos v2.dev.pos (u32 p) v4.dev.pos x.coded_head
              (replicate b 0) x.coded_table x.first x.coded (omega arith) (omega arith) w2
              (omega arith) q n (omega (arith, no_wrap, x.size_first, x.size_coded));
        rest = refl;
        same_size = refl;
      }

-- The formatter, for a head whose regions lie in order on a drive: it ends, and the drive holds them.
pub write_regions-Formatted :
    (mem stack : ℕ → ℕ) (product : List ℕ) (h : Head) (v : Volume)
    → v.dev.pos ≡ 0
    → IsLayout h v.dev.size
    → IsDriveCipher v h
    → length product ≤ label_length
    → (w : Volume) × (write_regions mem stack product h v ≡ ok tt w) × Formatted h v w
write_regions-Formatted mem stack product h v start is cipher short =
    let x : Parts mem stack product h v =
      write_regions-Parts mem stack product h v is cipher short in
    (
      v5 mem stack product h v start is x,
      write_regions_runs mem stack product h v start is x,
      v5-Formatted mem stack product h v start is x cipher,
    )
