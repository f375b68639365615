-- ===== src/Fmt/Fits.antt =====
-- The layout that the formatter computes for a drive, whose regions hold what is written to them.
use fcfs.Base.{ℕ, ◌+◌, ◌-◌, ◌*◌, ◌/◌, ◌%◌, ◌^◌, ◌≤◌, ◌<◌, ◌≡◌, arith}
use native.Mathlib.Nat.{div-add-mod}
use fcfs.Base.Words.{u16, u32}
use fcfs.Base.Xor.{bit_xor_lt}
use fcfs.Structs.{sizeof_table, sizeof_head}
use fcfs.Persist.Regions.{mul_mono}
use fcfs.Fmt.{sub64, ceil_div, table_blocks, format_head}
use fcfs.Fmt.Geometry.{IsDrive, table_fits, table_blocks-eq, bitmap_small}
use fcfs.Fmt.Layout.{IsLayout}

-- A whole number of blocks of `l` bytes for `a` bytes is less than a block too long.
ceil_div-mul : (a l : ℕ) → 0 < l → ceil_div a l * l < a + l
ceil_div-mul a l pos =
    let split : l * ((a + l - 1) / l) + (a + l - 1) % l ≡ a + l - 1 = div-add-mod (a + l - 1) l in
    grind arith

-- The bytes of the bitmap's blocks, for a drive of less than 2 ^ 32 sectors.
bitmap_bytes :
    (b t l : ℕ)
    → 0 < l
    → b < 2 ^ 31
    → t + 1 ≤ b
    → u32 (ceil_div (sub64 (sub64 b t) 1 / 8 / 8) l) * l < 2 ^ 25 + l
bitmap_bytes b t l pos h r =
    let a : ℕ = sub64 (sub64 b t) 1 / 8 / 8 in
    let small : a < 2 ^ 25 = omega arith in
    let most : ceil_div a l * l < a + l = ceil_div-mul a l pos in
    let word : u32 (ceil_div a l) ≤ ceil_div a l = omega arith in
    omega (arith, mul_mono l (u32 (ceil_div a l)) (ceil_div a l) word)

-- The bytes of the file table's blocks.
table_bytes : (s : ℕ) → 18 ≤ s → table_blocks (2 * s) * (2 * s) ≤ sizeof_table + 2 * s
table_bytes s h =
    let (_, less) = table_fits s h in
    let count : table_blocks (2 * s) ≡ sizeof_table / (2 * s) + 1 = table_blocks-eq s h in
    let pos : 1 ≤ table_blocks (2 * s) = omega arith in grind arith

products : (l m t : ℕ) → (2 + m + t) * l ≡ 2 * l + m * l + t * l
products l m t = grind arith

-- A drive whose blocks hold the head and whose bytes are those of its sectors.
pub record IsWholeDrive (sec_sz sec_cnt size : ℕ) : Type 0 where
  pub geometry : IsDrive sec_sz sec_cnt
  pub block_holds_head : 176 ≤ sec_sz
  pub whole : sec_sz * sec_cnt ≤ size

-- the computed lengths of bitmap and table, with the block of the head and the gap, in the drive
blocks_inside :
    (s u n k size : ℕ) → u ≡ s → k * 2 + 16 ≤ n → s * n ≤ size → k * (2 * u) + 8 * (2 * u) ≤ size
blocks_inside s u n k size same room whole =
    let more : (k * 2 + 16) * s ≤ n * s = mul_mono s (k * 2 + 16) n room in rw same (grind arith)

pub format_head-IsLayout :
    (s n now size : ℕ) → IsWholeDrive s n size → now < 2 ^ 64 → IsLayout (format_head s n now) size
unfolding format_head
format_head-IsLayout s n now size d time =
    let l : ℕ = 2 * u16 s in
    let s_word : u16 s ≡ s = omega (arith, d.geometry.sector_high) in
    let b : ℕ = n / 2 in
    let t : ℕ = table_blocks l in
    let m : ℕ = u32 (ceil_div (sub64 (sub64 b t) 1 / 8 / 8) l) in
    let wide : 18 ≤ u16 s = omega (arith, d.block_holds_head) in
    let high : n < 2 ^ 32 = d.geometry.count_high in
    let room : (table_blocks l + 1) * 2 + n / 64 + 64 ≤ n = rw s_word d.geometry.room in
    let small : m ≤ b / 64 = bitmap_small b t l (omega arith) (omega arith) (omega arith) in
    let bitmap : m * l < 2 ^ 25 + l =
      bitmap_bytes b t l (omega arith) (omega arith) (omega arith) in
    let table : t * l ≤ sizeof_table + l = table_bytes (u16 s) wide in
    let (holds, _) = table_fits (u16 s) wide in
    let start : u32 (2 + m + t) ≡ 2 + m + t = omega arith in
    let last : u32 (2 + m + t) * l ≡ 2 * l + m * l + t * l = rw start (products l m t) in
    record {
      fields = record {
        fsid = omega arith;
        ctime = time;
        atime = time;
        tbl_cnt = omega arith;
        tbl_len = omega arith;
        bmp_len = omega arith;
        clu_sz = omega arith;
        clu_cnt = omega arith;
        blk_sz = omega arith;
        blk_cnt = omega arith;
        phy_blk_sz = omega arith;
        phy_blk_cnt = omega arith;
        dta_beg = omega arith;
        hashsum = bit_xor_lt 64 sizeof_head now (omega arith) time;
      };
      head = omega (arith, d.block_holds_head);
      bitmap = omega arith;
      table = omega arith;
      table_small = omega arith;
      order = omega arith;
      seek = omega arith;
      inside = blocks_inside s (u16 s) n (u32 (2 + m + t)) size s_word (omega arith) d.whole;
    }
