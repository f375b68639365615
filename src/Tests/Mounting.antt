-- ===== src/Tests/Mounting.antt =====
-- A volume of one-kilobyte blocks with the file table of the driver, whose head stands on its device.
-- Its cipher changes nothing.
use fcfs.Base.{
  ℕ, zero, suc, ◌*◌, ◌/◌, ◌^◌, ◌<◌, ◌≡◌, refl, ap, sym, ◌∙◌, some, false, List, [], ◌∷◌, All, arith,
  ltb, ◌==◌, if◌then◌else◌, length, replicate, length-replicate,
}
use fcfs.Base.Monad.{ok}
use fcfs.Structs.{Head, TableEntry, table_len, sizeof_table, cluster_per_file}
use fcfs.Volume.{Cipher, IsCipher, Volume}
use fcfs.Layout.{IsVolume}
use fcfs.Bitmap.Update.{used}
use fcfs.Device.{bytes_at}
use fcfs.Device.Bytes.{length-bytes_at}
use fcfs.Scsi.{DscInfo}
use fcfs.Persist.{write_bitmap, write_table}
use fcfs.Mount.{mount, head_from, decode_head}
use fcfs.Mount.Codec.{IsEntry}
use fcfs.Tests.Drive.{some-injective}
use fcfs.Mount.Roundtrip.{IsMountable, mount-write_table}

abbrev pub big_head : Head
big_head = record {
  fsid = 1;
  ctime = 0;
  atime = 0;
  tbl_cnt = 3;
  tbl_len = 2177;
  bmp_len = 1;
  clu_sz = 7168;
  clu_cnt = 8;
  blk_sz = 2;
  blk_cnt = 64;
  phy_blk_sz = 512;
  phy_blk_cnt = 128;
  dta_beg = 2180;
  hashsum = 352;
}

-- The bytes of the head that are not zero, by their address.
unfoldable pub byte_of : List (ℕ × ℕ) → ℕ → ℕ
byte_of [] a = 0
byte_of ((p, b) ∷ l) a = let rest = byte_of l a in if a == p then b else rest

abbrev pub head_bytes : List (ℕ × ℕ)
head_bytes =
    (0, 1)
    ∷ (280, 3)
    ∷ (284, 129)
    ∷ (285, 8)
    ∷ (288, 1)
    ∷ (293, 28)
    ∷ (296, 8)
    ∷ (304, 2)
    ∷ (312, 64)
    ∷ (321, 2)
    ∷ (328, 128)
    ∷ (336, 132)
    ∷ (337, 8)
    ∷ (344, 96)
    ∷ (345, 1)
    ∷ []

abbrev pub keeping : Cipher
keeping = record { encrypt = some; decrypt = some }

pub keeping-IsCipher : (n : ℕ) → IsCipher n keeping
keeping-IsCipher n = record {
  total = λ bs e. (bs, refl);
  same_length = λ bs cs e enc. ap length (some-injective (sym enc)) ∙ e;
  undone = λ bs cs e enc. sym enc;
}

abbrev pub free_entry : TableEntry
free_entry = record { lnk_cnt = 0; clrs = replicate 16 0 }

-- a table of `n` entries that no file has
pub entries : ℕ → List TableEntry
entries n = replicate n free_entry

length-entries : (n : ℕ) → length (entries n) ≡ n
unfolding entries
length-entries n = length-replicate n free_entry

entries-IsEntry : (n : ℕ) → All IsEntry (entries n)
unfolding entries
entries-IsEntry zero = tt
entries-IsEntry (suc n) =
    (record { links = omega arith; count = refl; clusters = zeros 16 }, entries-IsEntry n)
  where
    zeros : (k : ℕ) → All (λ c. c < 2 ^ 16) (replicate k 0)
    zeros zero = tt
    zeros (suc k) = (omega arith, zeros k)

entries_clusters : (n : ℕ) → All (λ e. length e.clrs ≡ cluster_per_file) (entries n)
unfolding entries
entries_clusters zero = tt
entries_clusters (suc n) = (refl, entries_clusters n)

abbrev pub big : Volume
big = record {
  dev = record { byte = byte_of head_bytes; size = 2297856; pos = 0 };
  ciph = keeping;
  fs_head = big_head;
  fs_bitmap = 129 ∷ [];
  fs_table = record { hashsum = sizeof_table; entrs = entries table_len };
  clrs_cache = record { fid = 0; s0_cl = replicate 13 0; s0_cnt = 0; s1_cl = []; s1_cnt = 0 };
}

pub big-IsVolume : IsVolume big
big-IsVolume = record {
  fits = omega arith;
  flags = omega arith;
  flag_bytes = (omega arith, tt);
  flag_region = omega arith;
  before_data = omega arith;
  on_device = omega arith;
  addressed = omega arith;
}

head_on_device : decode_head (bytes_at (byte_of head_bytes) 0 1024) ≡ big_head
unfolding decode_head head_from bytes_at byte_of
head_on_device = refl

big-IsMountable : IsMountable big
big-IsMountable = record {
  head_bytes = bytes_at (byte_of head_bytes) 0 1024;
  head_read = refl;
  head_size = omega (arith, length-bytes_at (byte_of head_bytes) 0 1024);
  head_is = head_on_device;
  head_sum = refl;
  table = record {
    clusters = entries_clusters table_len;
    fits = rw (length-entries table_len) (omega arith);
    before_data = omega arith;
  };
  table_sum = refl;
  sum_small = omega arith;
  count = length-entries table_len;
  entries = entries-IsEntry table_len;
}

abbrev drive : DscInfo
drive = record { sn = []; vendor = []; product = []; ver = []; sec_sz = 512; sec_cnt = 4488 }

mount-write_table_example :
    (x w y : Volume) × (write_bitmap big ≡ ok 0 x)
    × (write_table x ≡ ok 0 w)
    × (mount drive (record big { dev = w.dev; ciph = w.ciph }) ≡ ok 0 y)
    × (y.fs_head ≡ big_head)
    × (y.fs_table ≡ big.fs_table)
    × ((c : ℕ) → used y.fs_bitmap c ≡ (if ltb c (8 * (8 / 8)) then used (129 ∷ []) c else false))
mount-write_table_example =
    mount-write_table big big drive big-IsVolume big-IsMountable (keeping-IsCipher 2229248) refl
