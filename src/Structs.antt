-- ===== src/Structs.antt =====
-- include/fcfs_structs.h and the block list link of fcfs/src/dev.h: the on-disk structures and
-- the constants that size them.
use fcfs.Base.{ℕ, List}

-- FCFS_LABEL_LENGTH
abbrev pub label_length : ℕ
label_length = 255

-- FCFS_CLUSTER_PER_FILE, FCFS_BLOKS_PER_CLUSTER, FCFS_TABLE_LEN, FCFS_BLOCK_SIZE
abbrev pub cluster_per_file : ℕ
cluster_per_file = 16

abbrev pub bloks_per_cluster : ℕ
bloks_per_cluster = 8

abbrev pub table_len : ℕ
table_len = 65535

abbrev pub block_size : ℕ
block_size = 2

-- FCFS_MIN_PASSWORD_LEN
abbrev pub min_password_len : ℕ
min_password_len = 6

-- struct fcfs_head. The label is left out: the driver never reads it back, and only the bytes
-- that the formatter writes have one.
pub record Head : Type 0 where
  pub fsid : ℕ
  pub ctime : ℕ
  pub atime : ℕ
  pub tbl_cnt : ℕ
  pub tbl_len : ℕ
  pub bmp_len : ℕ
  pub clu_sz : ℕ
  pub clu_cnt : ℕ
  pub blk_sz : ℕ
  pub blk_cnt : ℕ
  pub phy_blk_sz : ℕ
  pub phy_blk_cnt : ℕ
  pub dta_beg : ℕ
  pub hashsum : ℕ

-- struct fcfs_table_entry: 16 cluster numbers of 16 bits
pub record TableEntry : Type 0 where
  pub lnk_cnt : ℕ
  pub clrs : List ℕ

-- struct fcfs_table
pub record Table : Type 0 where
  pub hashsum : ℕ
  pub entrs : List TableEntry

-- struct fcfs_block_list_entry
pub record BlockListEntry : Type 0 where
  pub fid : ℕ
  pub num : ℕ

-- struct fcfs_block_list: one entry for each of the 7 data blocks of a cluster
pub record BlockList : Type 0 where
  pub hashsum : ℕ
  pub entrs : List BlockListEntry

-- sizeof(fcfs_file_header_t), sizeof(fcfs_block_list_t), sizeof(fcfs_table_entry_t),
-- sizeof(fcfs_table_t) and sizeof(fcfs_head_t), on a 64-bit machine
abbrev pub sizeof_file_header : ℕ
sizeof_file_header = 4

abbrev pub sizeof_block_list : ℕ
sizeof_block_list = 64

abbrev pub sizeof_table_entry : ℕ
sizeof_table_entry = 34

-- 8 + 65535 * 34 bytes, padded to a multiple of 8
abbrev pub sizeof_table : ℕ
sizeof_table = 2228200

abbrev pub sizeof_head : ℕ
sizeof_head = 352

-- dev_blk_info_t: a link of a file's block list
pub record BlkInfo : Type 0 where
  pub cid : ℕ
  pub bid : ℕ
  pub num : ℕ
