-- ===== src/Ctable.antt =====
-- fcfs/src/dev/ctable.c: the table of owners in the first block of each cluster, in the layout of
-- `fcfs_block_list_t`, under a checksum.
pub mod Roundtrip
pub mod Total
pub mod View
use Prim.Native.Nat.{bit_xor}
use fcfs.Base.{
  ℕ, zero, suc, ◌+◌, ◌-◌, ◌%◌, ◌^◌, Option, none, some, List, [], ◌∷◌, ◌++◌, ltb, ◌==◌,
  if◌then◌else◌, take, drop, replicate, length,
}
use fcfs.Base.Bytes.{to_le, from_le}
use fcfs.Base.Monad.{◌>>=◌, ◌>>◌, pure, get, need}
use fcfs.Base.Words.{u32, u64}
use fcfs.Structs.{BlockList, BlockListEntry, bloks_per_cluster, sizeof_block_list}
use fcfs.Volume.{Volume, M, lblk_sz}
use fcfs.Device.{noneed, read_block, write_block}

-- `sum += bl->entrs[i].fid` in 32 bits
unfoldable pub sum_fids : ℕ → List BlockListEntry → ℕ
sum_fids sum [] = sum
sum_fids sum (e ∷ es) = sum_fids (u32 (sum + e.fid)) es

-- get_hashsum
unfoldable pub get_hashsum : Volume → List BlockListEntry → ℕ
get_hashsum v entrs = u64 (bit_xor (sum_fids 0 entrs) v.fs_head.ctime)

abbrev pub encode_entrs : List BlockListEntry → List ℕ
encode_entrs [] = []
encode_entrs (e ∷ es) = to_le 4 e.fid ++ (to_le 4 e.num ++ encode_entrs es)

abbrev pub decode_entrs : ℕ → List ℕ → List BlockListEntry
decode_entrs zero bs = []
decode_entrs (suc n) bs =
    record { fid = from_le (take 4 bs); num = from_le (take 4 (drop 4 bs)) }
    ∷ decode_entrs n (drop 8 bs)

-- the bytes of a `fcfs_block_list_t`
pub encode : BlockList → List ℕ
encode bl = to_le 8 bl.hashsum ++ encode_entrs bl.entrs

unfoldable pub decode : List ℕ → BlockList
decode bs = record {
  hashsum = from_le (take 8 bs);
  entrs = decode_entrs (bloks_per_cluster - 1) (drop 8 bs);
}

-- the table after `memset`: every block is free
abbrev pub no_owners : BlockList
no_owners = record {
  hashsum = 0;
  entrs = replicate (bloks_per_cluster - 1) (record { fid = 0; num = 0 });
}

-- `memcpy(table, b, sizeof(fcfs_block_list_t))`: `none` for a null pointer or a short buffer
unfoldable pub copied : Option (List ℕ) → Option BlockList
copied none = none
copied (some b) = if ltb (length b) sizeof_block_list then none else some (decode b)

-- dev_read_ctable
unfoldable pub read_ctable : ℕ → M BlockList
read_ctable id = do
  b ← read_block id 0 noneed
  table ← need (copied b)
  v ← get
  pure (if table.hashsum == get_hashsum v table.entrs then table else no_owners)

-- dev_write_ctable. The new checksum is also left in the caller's structure, where no caller reads
-- it.
pub write_ctable : ℕ → BlockList → M ℕ
write_ctable id bl = do
  v ← get
  write_block id 0 (encode (record bl { hashsum = get_hashsum v bl.entrs })) sizeof_block_list
      noneed
