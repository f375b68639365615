-- ===== src/Fmt/Start.antt =====
-- The invariant of the file system on a drive that the formatter has written.
use native.Mathlib.Nat.{mul_comm}
use fcfs.Base.{
  ℕ, ◌+◌, ◌-◌, ◌*◌, ◌/◌, ◌%◌, ◌^◌, ◌≤◌, ◌<◌, ◌≡◌, zero, suc, refl, ap, sym, subst, All, arith,
  length, length-replicate, replicate,
}
use fcfs.Base.Monad.{ok}
use fcfs.Base.Words.{u16}
use fcfs.Structs.{Head, TableEntry, cluster_per_file, label_length, table_len}
use fcfs.Volume.{Volume, lblk_sz}
use fcfs.Device.{at}
use fcfs.Scsi.{DscInfo}
use fcfs.Persist.Regions.{mul_mono}
use fcfs.Clusters.Ready.{Ready}
use fcfs.Persist.{sizeof_entries}
use fcfs.Persist.TableRegion.{IsTable}
use fcfs.Mount.{mount}
use fcfs.Fmt.{format_head, format}
use fcfs.Fmt.Geometry.{data_end, data_end_lem}
use fcfs.Fmt.Codec.{root_only, no_links}
use fcfs.Fmt.Layout.{IsLayout, IsDriveCipher}
use fcfs.Fmt.Fits.{IsWholeDrive, format_head-IsLayout}
use fcfs.Fmt.Mounted.{format-Formatted, mount-Formatted}
use fcfs.Fmt.Fresh.{HasClusters, IsCleared, fresh_volume, fresh-Coherent}

-- The division of the drive into clusters leaves a block over, the bitmap has a flag for every
-- cluster, and an `int` holds every address of the drive.
pub record IsDivided (h : Head) (size : ℕ) : Type 0 where
  pub block_over : 0 < (h.blk_cnt - h.tbl_len - h.bmp_len - 1) % 8
  pub flags : h.clu_cnt ≤ 8 * (h.bmp_len * (h.blk_sz * h.phy_blk_sz))
  pub addressed : size < 2 ^ 31

-- `e` blocks of two sectors of `s` bytes on a drive of `n` sectors
blocks_on : (s u n e size : ℕ) → u ≡ s → e ≤ n / 2 → s * n ≤ size → e * (2 * u) ≤ size
blocks_on s u n e size same few whole =
    let more : e * 2 * s ≤ n * s = mul_mono s (e * 2) n (omega arith) in rw same (grind arith)

distribute : (a k l : ℕ) → a * l + 8 * l * k ≡ (a + 8 * k) * l
distribute a k l = grind arith

pub format_head-HasClusters :
    (s n now size : ℕ)
    → IsWholeDrive s n size
    → IsDivided (format_head s n now) size
    → HasClusters (format_head s n now) size
unfolding format_head
format_head-HasClusters s n now size d is =
    let h : Head = format_head s n now in
    let ends = data_end_lem s n now d.geometry in
    let few : data_end h ≤ n / 2 = omega (arith, ends, is.block_over) in
    let s_word : u16 s ≡ s = omega (arith, d.geometry.sector_high) in
    record {
      flags = is.flags;
      on_device =
          rw (distribute h.dta_beg h.clu_cnt (2 * u16 s))
            (blocks_on s (u16 s) n (data_end h) size s_word few d.whole);
      addressed = is.addressed;
    }

All-replicate :
    (n : ℕ) (e : TableEntry)
    → length e.clrs ≡ cluster_per_file
    → All (λ x. length x.clrs ≡ cluster_per_file) (replicate n e)
All-replicate zero e h = tt
All-replicate (suc n) e h = (h, All-replicate n e h)

-- The file table of the root directory alone fits the region that the head gives it.
root_only-IsTable :
    (v : Volume) (size : ℕ) → v.fs_table ≡ root_only v.fs_head → IsLayout v.fs_head size → IsTable v
root_only-IsTable v size root is =
    let h : Head = v.fs_head in
    let same : lblk_sz v ≡ h.blk_sz * h.phy_blk_sz = mul_comm _ _ in
    let many : length (root_only h).entrs ≡ table_len =
      ap suc (length-replicate (table_len - 1) no_links) in
    record {
      clusters = rw root (refl, All-replicate (table_len - 1) no_links refl);
      fits =
          rw (root, same)
            (subst (λ n. sizeof_entries n ≤ h.tbl_len * (h.blk_sz * h.phy_blk_sz)) (sym many)
              is.table);
      before_data = omega (arith, is.order);
    }

-- A drive that has room for a cluster, formatted and then mounted with the same cipher, where the
-- clusters lie on the drive and no stale table is taken for one of the new file system: bitmap and
-- file table of the mounted volume are in order.
pub format-mount-Ready :
    (mem stack : ℕ → ℕ) (info : DscInfo) (now : ℕ) (v u : Volume)
    → IsWholeDrive info.sec_sz info.sec_cnt v.dev.size
    → now < 2 ^ 64
    → IsDriveCipher v (format_head info.sec_sz info.sec_cnt now)
    → length info.product ≤ label_length
    → u.ciph ≡ v.ciph
    → IsDivided (format_head info.sec_sz info.sec_cnt now) v.dev.size
    → IsCleared (format_head info.sec_sz info.sec_cnt now) v.dev.byte
    → (w z : Volume) × (format mem stack info now v ≡ ok tt w)
      × (mount info (record u { dev = w.dev }) ≡ ok 0 z)
      × Ready z
format-mount-Ready mem stack info now v u d time cipher short same divided cleared =
    let h : Head = format_head info.sec_sz info.sec_cnt now in
    let is : IsLayout h v.dev.size =
      format_head-IsLayout info.sec_sz info.sec_cnt now v.dev.size d time in
    let has : HasClusters h v.dev.size =
      format_head-HasClusters info.sec_sz info.sec_cnt now v.dev.size d divided in
    let (w, runs, on) = format-Formatted mem stack info now v d time cipher short in
    (
      w,
      fresh_volume h u w,
      runs,
      mount-Formatted info now v w u d time on same,
      record {
        coherent = fresh-Coherent h (at v 0) w u is on has (record { stale = cleared.stale });
        table = root_only-IsTable (fresh_volume h u w) v.dev.size refl is;
        cipher = rw (same, mul_comm h.phy_blk_sz h.blk_sz) cipher.table;
      },
    )
