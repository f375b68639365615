-- ===== src/Lib.antt =====
-- FCFS, an encrypted file system for libfuse with its formatter: the storage layer of the driver.
--
-- A volume is a head, a bitmap with a bit for each cluster, a file table, and clusters of 8 blocks.
-- The first block of a cluster is its table of owners: for each of the 7 blocks of data a file
-- number and a logical number, under a checksum. The file table lists the clusters of each file.
-- Blocks of data and the file table are encrypted, the bitmap and the tables of owners are not. The
-- driver keeps head, bitmap and file table in memory and writes them back when they change.
--
-- Files and code:
--   Base        notation, lists and bytes over the native numbers, machine words, and the monad of
--               commands, whose runs end well, in exit, in undefined behaviour or out of fuel
--   Structs     include/fcfs_structs.h, and the block list link of fcfs/src/dev.h
--   Volume      fcfs_args_t (fcfs/src/fcfs.h), dev_clrs_cache_t (fcfs/src/dev/cache.h), the cipher
--   Device      fcfs/src/dev/read.c and fcfs/src/dev/write.c: blocks by cluster and number, with
--               their bytes (Device/Bytes), one block (Device/Blocks), the others (Device/Frame) and
--               dev_get_blocks (Device/Owned)
--   Ctable      fcfs/src/dev/ctable.c: the table of owners
--   Bitmap      dev_upd_bitmap and dev_free_cluster_from of fcfs/src/dev/common.c on the bytes
--   Persist     fcfs/src/dev/unmount.c: dev_write_bitmap and dev_write_table
--   Layout      the geometry that the driver relies on: regions that do not meet, on the device
--   Clusters    fcfs/src/dev/common.c over a volume; Clusters/Coherent says that the bitmap agrees
--               with the tables of owners, Clusters/Ready adds the file table and the cipher, and
--               Clusters/FreeBlocks and Clusters/FullFree are about the searches for room
--   Clrs        fcfs/src/dev/table.c: the clusters of a file in two stages, behind a cache: how it is
--               filled (Clrs/FirstStage, Clrs/Cached, Clrs/Known), the first stage
--               extended (Clrs/Add), and the second stage on the device (Clrs/Second)
--   File        fcfs/src/dev/file.c and dev_del_block, dev_extd_blk_list of common.c: owners (File/Owner),
--               a new file (File/FirstBlock, File/Alloc), release (File/Release), growth
--               (File/Growth, File/Lengthened, File/MemClrs, File/Reserve), and any sequence of
--               these (File/Steps)
--   Mount       fcfs/src/dev/mount.c: head, bitmap and file table read from the device
--   Cache       fcfs/src/cache: the lists of blocks and the attributes that the driver remembers
--   FileSeq     dev_get_file_seq, dev_file_size and dev_set_file_size of fcfs/src/dev/file.c;
--               the blocks that the list has (FileSeq/Blocks), the list in the cache (FileSeq/Cached)
--   Dir         fcfs/src/dev/dir.c: directories, with the layout of an entry (Dir/Codec), the loops
--               over the blocks (Dir/Loops), the entry taken out (Dir/Remove), write and read
--               (Dir/Roundtrip)
--   Files       dev_create_file and dev_rm_file of fcfs/src/dev/file.c: the blocks of a cluster
--               (Files/Disown), of all clusters (Files/Release), the link count (Files/Remove), and a number
--               that is used again (Files/Lifetime, Files/Stale)
--   Ops         fcfs/src/ops: paths, attributes, directories, files made and removed
--   Transfer    fcfs/src/ops/read.c and fcfs/src/ops/write.c, with the bytes of ranges
--               (Transfer/Ranges), a file's blocks as one sequence of bytes (Transfer/Contents,
--               Transfer/Open), the loops (Transfer/Loops), and reads and writes
--   Seq         the sort of dev_get_file_seq (file.c), dev_read_by_id and dev_write_by_id
--   Utils       lib/utils.c, and how fcfs/src/ops cuts a path
--   Scsi        lib/scsi.c: the exchange with a drive (Scsi/Exchange), and its answers
--   Fmt         fmtr/fcfsfmt.c: the geometry, with its bounds (Fmt/Geometry, Fmt/Fits), and the regions
--               that are written: their bytes (Fmt/Codec, Fmt/Parts), the writes (Fmt/Writes, Fmt/Image),
--               what they leave (Fmt/Layout), the mount of the drive (Fmt/Mounted) and the invariant of
--               the new file system (Fmt/Fresh, Fmt/Start), its empty root (Fmt/Root, Fmt/Empty,
--               Fmt/Listing), and the options of the formatter (Fmt/Main)
--   Start       fcfs/src/fcfs.c and fcfs/src/ops/main.c: options and cipher (Start/Options), and a
--               session behind the formatter (Start/Session, Start/Listing)
--   Password    get_passwd of fcfs/src/fcfs.c and fmtr/fcfsfmt.c
--   Tests       a small volume, and the theorems at concrete inputs
--
-- Correspondence: a definition has the name of its C function without `dev_`. State is passed as a
-- Volume. Numbers are naturals; an int result of -1 is minus_one, 2 ^ 32 - 1, and a test for a
-- negative number is is_neg. A position that an int does not hold, a null pointer and an index out of
-- range are the result fault. The device is a function from addresses to bytes with a size and a
-- stream position: a transfer stops at the end, and a seek to a negative position is refused.
-- libgcrypt is a parameter: the cipher is a pair of functions, and IsCipher says that encryption
-- of a whole block succeeds, keeps the length and is undone by decryption. A loop over a list or up
-- to a bound is structural. The searches that the C code bounds by nothing (dev_full_free_cluster,
-- dev_free_blocks) and the sort run on fuel.
--
-- The hash map of the caches is a git submodule, and a parameter too: a record of its functions. A
-- list of blocks that the cache and the callers share is an object with a number in the Driver, which
-- is a Volume with the caches. The search for a path runs on fuel, one for each directory above it.
--
-- The set-up of the cipher and the hash are functions of libgcrypt, the exchange with the drive is a
-- function from commands to answers, and the size of what the allocator hands out is a function of what
-- was asked for. What libfuse makes of the command line is a list of keys and arguments.
--
-- Not modelled: terminal, printing and logging; the opening and closing of the device; memory that is
-- freed or leaked, but for the lists in the cache; a device that fails to write.
pub mod Base
pub mod Structs
pub mod Bitmap
pub mod Utils
pub mod Volume
pub mod Device
pub mod Ctable
pub mod Layout
pub mod Persist
pub mod Clusters
pub mod Clrs
pub mod File
pub mod Seq
pub mod Start
pub mod Scsi
pub mod Fmt
pub mod Password
pub mod Mount
pub mod Cache
pub mod FileSeq
pub mod Dir
pub mod Files
pub mod Ops
pub mod Transfer
pub mod Tests
