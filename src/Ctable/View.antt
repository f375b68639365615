-- ===== src/Ctable/View.antt =====
-- The owners of a cluster's blocks as a function of the volume, without the reading.
use fcfs.Base.{ℕ, ◌+◌, ◌≤◌, ◌≡◌, refl, false, tests, ltb, ◌==◌, if◌then◌else◌, length}
use fcfs.Base.Monad.{ok}
use Prim.Native.Nat.{bit_xor}
use fcfs.Base.Words.{u64}
use fcfs.Structs.{BlockList, Head, sizeof_block_list}
use fcfs.Volume.{Volume, lblk_sz}
use fcfs.Device.{noneed, at, block_pos}
use fcfs.Device.Bytes.{length-bytes_at}
use fcfs.Device.Blocks.{InVolume, plain, raw, read_block-Holds}
use fcfs.Ctable.{get_hashsum, sum_fids, decode, no_owners, copied, read_ctable}

abbrev pub accepted : Volume → BlockList → BlockList
accepted v bl = if bl.hashsum == get_hashsum v bl.entrs then bl else no_owners

-- The table that dev_read_ctable returns.
unfoldable pub table_of : Volume → ℕ → BlockList
table_of v id = accepted v (decode (raw v id 0))

pub read_ctable-table_of :
    (v : Volume) (id : ℕ)
    → InVolume v id 0
    → sizeof_block_list ≤ lblk_sz v
    → read_ctable id v ≡ ok (table_of v id) (at v (block_pos v id 0 + lblk_sz v))
unfolding read_ctable copied table_of get_hashsum
read_ctable-table_of v id i fits =
    let long : ltb (length (raw v id 0)) sizeof_block_list ≡ false =
      omega (tests, length-bytes_at v.dev.byte (block_pos v id 0) (lblk_sz v)) in
    rw (read_block-Holds v id 0 i noneed (raw v id 0) (plain refl), long)

abbrev accepted_at : Head → BlockList → BlockList
accepted_at h bl =
    if bl.hashsum == u64 (bit_xor (sum_fids 0 bl.entrs) h.ctime) then bl else no_owners

-- The view depends on the bytes of the table's block and on the head alone.
pub table_of-eq :
    (v w : Volume) (id : ℕ)
    → w.fs_head ≡ v.fs_head
    → raw w id 0 ≡ raw v id 0
    → table_of w id ≡ table_of v id
unfolding table_of get_hashsum
table_of-eq v w id head same = λ i. accepted_at (head i) (decode (same i))
