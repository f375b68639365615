-- ===== src/Volume.antt =====
-- The driver's state: `fcfs_args_t` of fcfs/src/fcfs.h, and the cluster cache that
-- fcfs/src/dev/table.c keeps in a static variable. libgcrypt is a parameter: the opened cipher is a
-- pair of functions on buffers, `none` for an error code.
use fcfs.Base.{ℕ, ◌*◌, ◌≡◌, Option, some, List, length}
use fcfs.Base.Monad.{Cmd}
use fcfs.Structs.{Head, Table}

-- gcry_cipher_encrypt and gcry_cipher_decrypt in place, with the key of the handle
pub record Cipher : Type 0 where
  pub encrypt : List ℕ → Option (List ℕ)
  pub decrypt : List ℕ → Option (List ℕ)

-- What the driver relies on for buffers of `n` bytes, a multiple of the cipher's block: encryption
-- succeeds, keeps the length, and is undone by decryption.
pub record IsCipher (n : ℕ) (c : Cipher) : Type 0 where
  pub total : (bs : List ℕ) → length bs ≡ n → (cs : List ℕ) × (c.encrypt bs ≡ some cs)
  pub same_length : (bs cs : List ℕ) → length bs ≡ n → c.encrypt bs ≡ some cs → length cs ≡ n
  pub undone : (bs cs : List ℕ) → length bs ≡ n → c.encrypt bs ≡ some cs → c.decrypt cs ≡ some bs

-- The block device behind the `FILE *`: its bytes, their number and the position of the stream.
pub record Dev : Type 0 where
  pub byte : ℕ → ℕ
  pub size : ℕ
  pub pos : ℕ

-- `dev_clrs_cache_t` of fcfs/src/dev/cache.h. The third stage is never filled, so `s2_cl` and its
-- count are left out, as is `atime`, which nothing reads.
pub record ClrsCache : Type 0 where
  pub fid : ℕ
  pub s0_cl : List ℕ
  pub s0_cnt : ℕ
  pub s1_cl : List ℕ
  pub s1_cnt : ℕ

pub record Volume : Type 0 where
  pub dev : Dev
  pub ciph : Cipher
  pub fs_head : Head
  pub fs_bitmap : List ℕ
  pub fs_table : Table
  pub clrs_cache : ClrsCache

abbrev pub M : Type 0 → Type 0
M A = Cmd Volume A

-- `args->fs_head->phy_blk_sz * args->fs_head->blk_sz`
abbrev pub lblk_sz : Volume → ℕ
lblk_sz v = v.fs_head.phy_blk_sz * v.fs_head.blk_sz
