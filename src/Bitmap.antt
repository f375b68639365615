-- ===== src/Bitmap.antt =====
-- The free-cluster bitmap of fcfs/src/dev/common.c: a bit is set when every block of the cluster
-- is taken. The bitmap is the array `fs_bitmap` of bytes; an index outside it is `none`.
pub mod Bits
pub mod Update
pub mod Search
pub mod Faults
use Prim.Native.Nat.{bit_and, bit_or}
use fcfs.Base.{
  ℕ, zero, suc, ◌+◌, ◌-◌, ◌*◌, ◌/◌, ◌%◌, ◌^◌, Bool, true, false, not, ◌&&◌, Option, none, some,
  List, [], ◌∷◌, ◌==◌, if◌then◌else◌, get_elem?, get_or, set, drop,
}
use fcfs.Base.Words.{is_neg, magnitude, minus_one, u32}
use fcfs.Structs.{BlockListEntry}

-- mask_off[] and mask[]
abbrev pub mask_off : List ℕ
mask_off = 7 ∷ 6 ∷ 5 ∷ 4 ∷ 3 ∷ 2 ∷ 1 ∷ 0 ∷ []

abbrev pub mask : List ℕ
mask = 128 ∷ 64 ∷ 32 ∷ 16 ∷ 8 ∷ 4 ∷ 2 ∷ 1 ∷ []

-- `cs &= mask[num]; cs >>= mask_off[num];`
unfoldable pub mask_bit : ℕ → ℕ → ℕ
mask_bit cs num = bit_and cs (get_or mask num 0) / 2 ^ get_or mask_off num 0

-- `byte |= mask[num]` and `byte &= ~mask[num]` on an unsigned char
unfoldable pub set_bit : ℕ → ℕ → ℕ
set_bit cs num = bit_or cs (get_or mask num 0)

pub clear_bit : ℕ → ℕ → ℕ
clear_bit cs num = bit_and cs (255 - get_or mask num 0)

-- Whether some block of the cluster has no owner.
unfoldable pub has_free : List BlockListEntry → Bool
has_free [] = false
has_free (e ∷ es) = let rest = has_free es in if e.fid == 0 then true else rest

-- The array is updated at `byte`; the flag says whether it changed.
unfoldable pub upd_byte : List ℕ → Bool → ℕ → ℕ → ℕ → Bool × List ℕ
upd_byte bitmap free byte num cs =
    let being_full = mask_bit cs num == 1 in
    if not free && not being_full
    then (true, set bitmap byte (set_bit cs num))
    else if free && being_full
    then (true, set bitmap byte (clear_bit cs num))
    else (false, bitmap)

-- dev_upd_bitmap. For a negative `cid` the index into `mask` or into the bitmap is negative.
unfoldable pub upd_bitmap : List ℕ → List BlockListEntry → ℕ → Option (Bool × List ℕ)
unfolding upd_byte
upd_bitmap bitmap entrs cid = if is_neg cid then none else elim (get_elem? bitmap (cid / 8)) [
  | none ↦ none
  | some cs ↦ some (upd_byte bitmap (has_free entrs) (cid / 8) (cid % 8) cs)
]

-- The inner loop of dev_free_cluster_from over `n` bits from bit `j`: the first clear one.
unfoldable pub first_clear : ℕ → ℕ → ℕ → Option ℕ
first_clear cs j zero = none
first_clear cs j (suc n) =
    let rest = first_clear cs (j + 1) n in if mask_bit cs j == 0 then some j else rest

-- The outer loop, at byte `i` with `left` rounds to go. `sc` is kept over a full byte, and is 0
-- after any other.
unfoldable pub scan : List ℕ → ℕ → ℕ → ℕ → Option ℕ
scan bs i zero sc = some minus_one
scan [] i (suc left) sc = none
scan (cs ∷ bs) i (suc left) sc =
    let rest = scan bs (i + 1) left (if cs == 255 then sc else 0) in
    if cs == 255
    then rest
    else elim (first_clear cs sc (8 - sc)) [ none ↦ rest | some j ↦ some (i * 8 + j) ]

-- dev_free_cluster_from. For -1 the division and the remainder give byte 0 and bit 0. No caller
-- passes another negative number: one above -8 indexes `mask` below 0, and for the others the loop
-- test fails at once.
unfoldable pub free_cluster_from : List ℕ → ℕ → ℕ → Option ℕ
free_cluster_from bitmap btm_len cid =
    if is_neg cid
    then (if magnitude cid == 1
        then scan bitmap 0 btm_len 0
        else if magnitude cid / 8 == 0
        then none
        else some minus_one)
    else scan (drop (cid / 8) bitmap) (cid / 8) (btm_len - cid / 8) (cid % 8 + 1)

-- dev_free_cluster
pub free_cluster : List ℕ → ℕ → Option ℕ
free_cluster bitmap btm_len = free_cluster_from bitmap btm_len 0
