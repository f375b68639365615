-- ===== src/Device/Blocks.antt =====
-- Reading and writing one block of a volume.
use fcfs.Base.{
  ℕ, ◌+◌, ◌-◌, ◌*◌, ◌^◌, ◌≤◌, ◌<◌, ◌≡◌, ◌≢◌, refl, ap, ◌∙◌, sym, Bool, true, false, some, List,
  ◌++◌, ◌⊎◌, le→ltb, inl, inr, arith, ◌==◌, if◌then◌else◌, length, take, replicate, length-append,
  length-take, length-replicate, take-all, min, lt→ltb, ==_refl,
}
use native.Mathlib.Decide.{dec_lt}
use fcfs.Base.Monad.{ok, pure}
use fcfs.Base.Words.{is_neg, minus_one}
use fcfs.Volume.{Volume, IsCipher, lblk_sz}
use fcfs.Device.{
  need_crypt, noneed, bytes_at, write_bytes, at, stored, fread, fwrite, block_pos, seek_block,
  read_block, padded, write_block,
}
use fcfs.Device.Bytes.{length-bytes_at, bytes_at-write_bytes, bytes_at-write_outside}

-- A block that lies on the device, at a position that an `int` holds.
pub record InVolume (v : Volume) (cid bid : ℕ) : Type 0 where
  pub nonneg : cid < 2 ^ 31
  pub addressed : block_pos v cid bid < 2 ^ 31
  pub inside : block_pos v cid bid + lblk_sz v ≤ v.dev.size

-- The bytes of a block as they stand on the device.
abbrev pub raw : Volume → ℕ → ℕ → List ℕ
raw v cid bid = bytes_at v.dev.byte (block_pos v cid bid) (lblk_sz v)

-- The data of a block, its encryption taken off.
pub data Holds (v : Volume) (cid bid : ℕ) : Bool → List ℕ → Type 0 where
  plain : {bs : List ℕ} → raw v cid bid ≡ bs → Holds v cid bid noneed bs
  crypted : {bs : List ℕ} → v.ciph.decrypt (raw v cid bid) ≡ some bs → Holds v cid bid need_crypt bs

module _ (v : Volume) (cid bid : ℕ) (i : InVolume v cid bid) where
  seek_block-at : seek_block cid bid v ≡ ok tt (at v (block_pos v cid bid))
  unfolding seek_block
  seek_block-at =
      let sign : is_neg cid ≡ false = ground (arith, i.nonneg) in rw (sign, lt→ltb _ _ i.addressed)

  fread-block :
      fread (lblk_sz v) (at v (block_pos v cid bid))
      ≡ ok (raw v cid bid) (at v (block_pos v cid bid + lblk_sz v))
  unfolding fread
  fread-block =
      let all : min (lblk_sz v) (v.dev.size - block_pos v cid bid) ≡ lblk_sz v =
        omega (arith, i.inside) in
      rw all

  -- dev_read_block returns the data of a block that lies on the device.
  pub read_block-Holds :
      (flag : Bool) (bs : List ℕ)
      → Holds v cid bid flag bs
      → read_block cid bid flag v ≡ ok (some bs) (at v (block_pos v cid bid + lblk_sz v))
  unfolding read_block
  read_block-Holds flag bs (plain e) =
      rw (seek_block-at, fread-block, length-bytes_at, ==_refl)
        (ap (λ b. ok (some b) (at v (block_pos v cid bid + lblk_sz v))) e)
  read_block-Holds flag bs (crypted e) =
      rw (seek_block-at, fread-block, length-bytes_at, ==_refl, e)

  fwrite-block :
      (bs : List ℕ)
      → length bs ≡ lblk_sz v
      → fwrite bs (at v (block_pos v cid bid)) ≡ ok (lblk_sz v) (stored v (block_pos v cid bid) bs)
  unfolding fwrite
  fwrite-block bs e =
      let all : min (length bs) (v.dev.size - block_pos v cid bid) ≡ lblk_sz v =
        omega (arith, i.inside) in
      rw (all, take-all (lblk_sz v) bs (omega arith))

-- The data that a write of `len` bytes leaves in a block: zeros follow it.
abbrev pub filled : Volume → List ℕ → ℕ → List ℕ
filled v data_bytes len = take len data_bytes ++ replicate (lblk_sz v - len) 0

padded-filled :
    (v : Volume) (data_bytes : List ℕ) (len : ℕ)
    → len ≤ lblk_sz v
    → len ≤ length data_bytes
    → padded (lblk_sz v) data_bytes len ≡ some (filled v data_bytes len)
unfolding padded
padded-filled v data_bytes len a b = rw (le→ltb _ _ a, le→ltb _ _ b)

length-filled :
    (v : Volume) (data_bytes : List ℕ) (len : ℕ)
    → len ≤ lblk_sz v
    → len ≤ length data_bytes
    → length (filled v data_bytes len) ≡ lblk_sz v
length-filled v data_bytes len a b = omega (
  arith,
  length-append (take len data_bytes) (replicate (lblk_sz v - len) 0),
  length-take len data_bytes,
  length-replicate {A = ℕ} (lblk_sz v - len) 0,
)

mul_step : (l m n : ℕ) → m < n → l * m + l ≤ l * n
mul_step l m n h = grind arith

-- Two blocks of a volume do not meet.
blocks_apart :
    (l base c b c' b' : ℕ)
    → b < 8
    → b' < 8
    → (c' ≢ c) ⊎ (b' ≢ b)
    → (base + 8 * l * c' + l * b' + l ≤ base + 8 * l * c + l * b)
      ⊎ (base + 8 * l * c + l * b + l ≤ base + 8 * l * c' + l * b')
blocks_apart l base c b c' b' h h' ne = elim (dec_lt (8 * c' + b') (8 * c + b)) [
  | yes p ↦ inl (omega (arith, mul_step l (8 * c' + b') (8 * c + b) p))
  | no p ↦ inr (omega (arith, mul_step l (8 * c + b) (8 * c' + b') (omega arith)))
]

raw-stored :
    (v : Volume) (cid bid cid' bid' : ℕ) (bs : List ℕ)
    → length bs ≡ lblk_sz v
    → bid < 8
    → bid' < 8
    → (cid' ≢ cid) ⊎ (bid' ≢ bid)
    → raw (stored v (block_pos v cid bid) bs) cid' bid' ≡ raw v cid' bid'
raw-stored v cid bid cid' bid' bs e b b' ne =
    bytes_at-write_outside v.dev.byte (block_pos v cid bid) bs (block_pos v cid' bid') (lblk_sz v)
      (rw e (blocks_apart (lblk_sz v) (v.fs_head.dta_beg * lblk_sz v) cid bid cid' bid' b b' ne))

raw-stored_self :
    (v : Volume) (cid bid : ℕ) (bs : List ℕ)
    → length bs ≡ lblk_sz v
    → raw (stored v (block_pos v cid bid) bs) cid bid ≡ bs
raw-stored_self v cid bid bs e =
    ap (bytes_at (write_bytes v.dev.byte (block_pos v cid bid) bs) (block_pos v cid bid)) (sym e)
    ∙ bytes_at-write_bytes v.dev.byte (block_pos v cid bid) bs

-- What dev_write_block leaves of a volume: the block holds the data, the other blocks keep their
-- bytes, and nothing but the device changes.
pub record Written (v : Volume) (cid bid : ℕ) (flag : Bool) (bs : List ℕ) (w : Volume)
    : Type 0 where
  pub holds : Holds w cid bid flag bs
  pub others :
      (cid' bid' : ℕ) → bid' < 8 → (cid' ≢ cid) ⊎ (bid' ≢ bid) → raw w cid' bid' ≡ raw v cid' bid'
  pub rest : w ≡ record v { dev = w.dev }
  pub same_size : w.dev.size ≡ v.dev.size

status :
    (b : Bool) (w : Volume)
    → (if b then pure 0 else pure minus_one) w ≡ ok (if b then 0 else minus_one) w
status true w = refl
status false w = refl

module _ (v : Volume) (cid bid : ℕ) (i : InVolume v cid bid) (small : bid < 8) where
  Written-stored :
      (flag : Bool) (bs cs : List ℕ)
      → length cs ≡ lblk_sz v
      → Holds (stored v (block_pos v cid bid) cs) cid bid flag bs
      → Written v cid bid flag bs (stored v (block_pos v cid bid) cs)
  Written-stored flag bs cs e holds = record {
    holds = holds;
    others = λ c b h ne. raw-stored v cid bid c b cs e small h ne;
    rest = refl;
    same_size = refl;
  }

  -- dev_write_block of `len` bytes to a block that lies on the device writes them, followed by
  -- zeros; other blocks and the rest of the state are kept. Although the block is written, the
  -- result is -1 unless `len` is the size of a whole block.
  pub write_block_lem :
      (data_bytes : List ℕ) (len : ℕ) (flag : Bool)
      → (flag ≡ need_crypt → IsCipher (lblk_sz v) v.ciph)
      → len ≤ lblk_sz v
      → len ≤ length data_bytes
      → (w : Volume) × (write_block cid bid data_bytes len flag v
          ≡ ok (if lblk_sz v == len then 0 else minus_one) w)
        × Written v cid bid flag (filled v data_bytes len) w
  unfolding write_block
  write_block_lem data_bytes len false cipher fits has = (
    stored v (block_pos v cid bid) (filled v data_bytes len),
    rw
        (
          padded-filled v data_bytes len fits has,
          seek_block-at v cid bid i,
          fwrite-block v cid bid i _ (length-filled v data_bytes len fits has),
        )
        (status (lblk_sz v == len) _),
    Written-stored noneed _ _ (length-filled v data_bytes len fits has)
        (plain (raw-stored_self v cid bid _ (length-filled v data_bytes len fits has))),
  )
  write_block_lem data_bytes len true cipher fits has =
      let bs = filled v data_bytes len in
      let size : length bs ≡ lblk_sz v = length-filled v data_bytes len fits has in
      let (cs, coded) = (cipher refl).total bs size in
      let size' : length cs ≡ lblk_sz v = (cipher refl).same_length bs cs size coded in
      (
        stored v (block_pos v cid bid) cs,
        rw
            (
              padded-filled v data_bytes len fits has,
              seek_block-at v cid bid i,
              coded,
              fwrite-block v cid bid i cs size',
            )
            (status (lblk_sz v == len) _),
        Written-stored need_crypt _ _ size' (
            crypted (
              ap v.ciph.decrypt (raw-stored_self v cid bid cs size')
              ∙ (cipher refl).undone bs cs size coded)),
      )
