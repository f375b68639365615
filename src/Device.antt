-- ===== src/Device.antt =====
-- fcfs/src/dev/read.c and write.c: blocks on the device. `fseek`, `fread` and `fwrite` move and use
-- the position of the stream; a device has a fixed size, so a transfer stops at its end.
pub mod Bytes
pub mod Blocks
pub mod Frame
pub mod Owned
use fcfs.Base.{
  ℕ, zero, suc, ◌+◌, ◌-◌, ◌*◌, ◌^◌, min, Bool, true, false, ◌||◌, Option, none, some, List, [], ◌∷◌,
  ◌++◌, ltb, leb, ◌==◌, if◌then◌else◌, length, take, replicate,
}
use fcfs.Base.Monad.{ok, died, fault, pure, ◌>>=◌, ◌>>◌, get, need}
use fcfs.Base.Words.{is_neg, magnitude, minus_one}
use fcfs.Structs.{BlockListEntry, bloks_per_cluster}
use fcfs.Volume.{Cipher, Dev, Volume, M, lblk_sz}

-- NEED and NONEED
abbrev pub need_crypt : Bool
need_crypt = true

abbrev pub noneed : Bool
noneed = false

-- the `n` bytes from address `p` on
unfoldable pub bytes_at : (ℕ → ℕ) → ℕ → ℕ → List ℕ
bytes_at f p zero = []
bytes_at f p (suc n) = f p ∷ bytes_at f (p + 1) n

pub write_bytes : (ℕ → ℕ) → ℕ → List ℕ → ℕ → ℕ
write_bytes f p [] a = f a
write_bytes f p (b ∷ bs) a = if a == p then b else write_bytes f (p + 1) bs a

abbrev pub at : Volume → ℕ → Volume
at v p = record v { dev = record v.dev { pos = p } }

-- `bs` written at `p`, and the stream behind it
abbrev pub stored : Volume → ℕ → List ℕ → Volume
stored v p bs = record v {
  dev = record v.dev { byte = write_bytes v.dev.byte p bs; pos = p + length bs };
}

unfoldable pub fread : ℕ → M (List ℕ)
unfolding bytes_at
fread n v =
    let count = min n (v.dev.size - v.dev.pos) in
    ok (bytes_at v.dev.byte v.dev.pos count) (at v (v.dev.pos + count))

-- the number of bytes written
unfoldable pub fwrite : List ℕ → M ℕ
unfolding write_bytes
fwrite bs v =
    let count = min (length bs) (v.dev.size - v.dev.pos) in
    ok count (stored v v.dev.pos (take count bs))

-- `dta_beg + clu_sz * cid + lblk_sz * bid` for a cluster number that is not negative
abbrev pub block_pos : Volume → ℕ → ℕ → ℕ
block_pos v cid bid =
    v.fs_head.dta_beg * lblk_sz v + bloks_per_cluster * lblk_sz v * cid + lblk_sz v * bid

-- `back` bytes before `base`
seek_back : ℕ → ℕ → M (Unit {0})
seek_back base back v =
    if leb (2 ^ 31) base || ltb (2 ^ 31) back
    then fault
    else if leb back base
    then ok tt (at v (base - back))
    else ok tt v

-- The seek of dev_read_block and dev_write_block. A position that an `int` does not hold is an
-- overflow. A negative position is refused by `fseek`, which leaves the stream where it is; the
-- test of the result against 1 does not notice.
unfoldable pub seek_block : ℕ → ℕ → M (Unit {0})
unfolding seek_back
seek_block cid bid v =
    if is_neg cid
    then seek_back (block_pos v 0 bid) (bloks_per_cluster * lblk_sz v * magnitude cid) v
    else if ltb (block_pos v cid bid) (2 ^ 31)
    then ok tt (at v (block_pos v cid bid))
    else fault

-- gcry_cipher_decrypt or gcry_cipher_encrypt where the flag asks for it; an error ends the program.
abbrev pub crypt : (Cipher → List ℕ → Option (List ℕ)) → Bool → List ℕ → M (List ℕ)
crypt f flag bs v =
    if flag then (elim (f v.ciph bs) [ none ↦ died | some cs ↦ ok cs v ]) else ok bs v

-- dev_read_block: `none` is NULL.
unfoldable pub read_block : ℕ → ℕ → Bool → M (Option (List ℕ))
read_block cid bid flag = do
  v ← get
  seek_block cid bid
  block ← fread (lblk_sz v)
  if length block == lblk_sz v
      then (do plain ← crypt (λ c. c.decrypt) flag block; pure (some plain))
      else pure none

-- The block that dev_write_block sends: the data behind which the zeros of `calloc` remain. A
-- `memcpy` out of either buffer is a fault.
unfoldable pub padded : ℕ → List ℕ → ℕ → Option (List ℕ)
padded lblk data_bytes len =
    if ltb lblk len || ltb (length data_bytes) len
    then none
    else some (take len data_bytes ++ replicate (lblk - len) 0)

-- dev_write_block: the count that `fwrite` returns is compared with `len`.
pub write_block : ℕ → ℕ → List ℕ → ℕ → Bool → M ℕ
write_block cid bid data_bytes len flag = do
  v ← get
  tmp ← need (padded (lblk_sz v) data_bytes len)
  seek_block cid bid
  block ← crypt (λ c. c.encrypt) flag tmp
  res ← fwrite block
  if res == len then pure 0 else pure minus_one

-- dev_get_blocks: the numbers of the blocks that belong to `fid`, from 1
unfoldable pub blocks_from : ℕ → List BlockListEntry → ℕ → List ℕ
blocks_from i [] fid = []
blocks_from i (e ∷ es) fid =
    let rest = blocks_from (i + 1) es fid in if fid == e.fid then (i + 1) ∷ rest else rest

unfoldable pub get_blocks : List BlockListEntry → ℕ → List ℕ
unfolding blocks_from
get_blocks entrs fid = blocks_from 0 entrs fid
