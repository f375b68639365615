-- ===== src/Ctable/Total.antt =====
-- dev_read_ctable on any content of the device.
use fcfs.Base.{
  ℕ, zero, suc, ◌+◌, ◌^◌, ◌≤◌, ◌<◌, ◌≡◌, refl, ◌⊎◌, inl, inr, false, List, [], ◌∷◌, arith, tests,
  ltb, ◌==◌, All, length, take, drop, Bool-cases, ==→eq,
}
use native.Mathlib.Nat.{pow-suc}
use fcfs.Base.Bytes.{from_le, IsBytes}
use fcfs.Base.Monad.{ok}
use fcfs.Structs.{BlockList, sizeof_block_list}
use fcfs.Volume.{Volume, lblk_sz}
use fcfs.Device.{noneed, at, block_pos}
use fcfs.Device.Bytes.{length-bytes_at, IsBytes-bytes_at}
use fcfs.Device.Blocks.{InVolume, plain, raw, read_block-Holds}
use fcfs.Ctable.{get_hashsum, decode, decode_entrs, no_owners, copied, read_ctable}
use fcfs.Ctable.Roundtrip.{FitsEntry, IsBlockList}

from_le-take_lt : (k : ℕ) (bs : List ℕ) → IsBytes bs → from_le (take k bs) < 256 ^ k
from_le-take_lt zero bs h = omega arith
from_le-take_lt (suc k) [] h = grind (arith, pow-suc 256 k, from_le-take_lt k [] tt)
from_le-take_lt (suc k) (b ∷ bs) h = omega (arith, pow-suc 256 k, from_le-take_lt k bs h.1, h.0)

IsBytes-drop : (n : ℕ) (bs : List ℕ) → IsBytes bs → IsBytes (drop n bs)
IsBytes-drop zero bs h = h
IsBytes-drop (suc n) [] h = h
IsBytes-drop (suc n) (b ∷ bs) h = IsBytes-drop n bs h.1

decode_entrs-fits : (n : ℕ) (bs : List ℕ) → IsBytes bs → All FitsEntry (decode_entrs n bs)
decode_entrs-fits zero bs h = tt
decode_entrs-fits (suc n) bs h = (
  record {
    fid = from_le-take_lt 4 bs h;
    num = from_le-take_lt 4 (drop 4 bs) (IsBytes-drop 4 bs h);
  },
  decode_entrs-fits n (drop 8 bs) (IsBytes-drop 8 bs h),
)

decode-IsBlockList : (bs : List ℕ) → IsBytes bs → IsBlockList (decode bs).entrs
unfolding decode
decode-IsBlockList bs h = record {
  count = refl;
  fits = decode_entrs-fits 7 (drop 8 bs) (IsBytes-drop 8 bs h);
}

-- A table that the driver may act on: its shape is that of the C type, and it is either empty or
-- carries the checksum of its owners.
pub record Trusted (v : Volume) (bl : BlockList) : Type 0 where
  pub shape : IsBlockList bl.entrs
  pub checked : (bl ≡ no_owners) ⊎ (bl.hashsum ≡ get_hashsum v bl.entrs)

-- Whatever bytes stand on the device, dev_read_ctable of a cluster whose first block lies on it
-- returns a table of 7 entries in range, which is empty unless its checksum agrees, and changes
-- only the position of the stream.
pub read_ctable-Trusted :
    (v : Volume) (id : ℕ)
    → InVolume v id 0
    → sizeof_block_list ≤ lblk_sz v
    → ((a : ℕ) → v.dev.byte a < 256)
    → (bl : BlockList) × (read_ctable id v ≡ ok bl (at v (block_pos v id 0 + lblk_sz v)))
      × Trusted v bl
unfolding read_ctable copied get_hashsum
read_ctable-Trusted v id i fits bytes =
    let bs : List ℕ = raw v id 0 in
    let long : ltb (length bs) sizeof_block_list ≡ false =
      omega (tests, length-bytes_at v.dev.byte (block_pos v id 0) (lblk_sz v)) in
    let shape : IsBlockList (decode bs).entrs =
      decode-IsBlockList bs (IsBytes-bytes_at v.dev.byte (block_pos v id 0) (lblk_sz v) bytes) in
    elim (Bool-cases ((decode bs).hashsum == get_hashsum v (decode bs).entrs)) [
      | inl same ↦ (
        decode bs,
        rw (read_block-Holds v id 0 i noneed bs (plain refl), long, same),
        record { shape = shape; checked = inr (==→eq _ _ same) },
      )
      | inr other ↦ (
        no_owners,
        rw (read_block-Holds v id 0 i noneed bs (plain refl), long, other),
        record { shape = record { count = refl; fits = omega arith }; checked = inl refl },
      )
    ]
