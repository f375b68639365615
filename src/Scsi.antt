-- ===== src/Scsi.antt =====
-- lib/scsi.c: the exchange with a drive and what get_disc_info makes of its answers. `ioctl` with SG_IO
-- is not part of the source: a drive is an argument.
pub mod Capacity
pub mod Exchange
use fcfs.Base.{
  ℕ, zero, suc, ◌+◌, Bool, Option, none, some, List, [], ◌∷◌, ◌++◌, ◌==◌, if◌then◌else◌, get_or,
  set, take, drop, length, replicate,
}
use fcfs.Base.Bytes.{from_le}
use fcfs.Base.Monad.{died, Cmd, pure, ◌>>=◌}
use fcfs.Base.Words.{minus_one}

-- get_scsi_cmd: the bytes of a command of the three types, none for another type
unfoldable pub get_scsi_cmd : ℕ → List ℕ
get_scsi_cmd zero = 0x25 ∷ 0 ∷ 0 ∷ 0 ∷ 0 ∷ 0 ∷ 0 ∷ 0 ∷ 0 ∷ 0 ∷ []
get_scsi_cmd (suc zero) = 0x12 ∷ 0x01 ∷ 0x80 ∷ 0 ∷ 0 ∷ 0 ∷ []
get_scsi_cmd (suc (suc zero)) = 0x12 ∷ 0 ∷ 0 ∷ 0 ∷ 0xff ∷ 0 ∷ []
get_scsi_cmd (suc (suc (suc n))) = []

-- swap_byte of two elements of a buffer
unfoldable pub swap_byte : List ℕ → ℕ → ℕ → List ℕ
swap_byte buf a b = set (set buf a (get_or buf b 0)) b (get_or buf a 0)

-- fill_field
unfoldable pub fill_field : List ℕ → ℕ → ℕ → List ℕ
fill_field buf start len = take len (drop start buf)

-- dsc_info_t, where a list carries its length
pub record DscInfo : Type 0 where
  pub sn : List ℕ
  pub vendor : List ℕ
  pub product : List ℕ
  pub ver : List ℕ
  pub sec_sz : ℕ
  pub sec_cnt : ℕ

-- The swaps in the buffer of the capacity.
unfoldable pub swapped : List ℕ → List ℕ
unfolding swap_byte
swapped buf = swap_byte (swap_byte (swap_byte (swap_byte buf 0 3) 1 2) 4 7) 5 6

-- get_disc_info on the buffer behind the three commands: serial number, identification, capacity
unfoldable pub get_disc_info : List ℕ → List ℕ → List ℕ → DscInfo
unfolding swapped fill_field
get_disc_info inqr info capacity = record {
  sn = take (get_or inqr 3 0) (drop 4 inqr);
  vendor = fill_field info 8 8;
  product = fill_field info 16 16;
  ver = fill_field info 32 8;
  sec_sz = from_le (take 4 (drop 4 (swapped capacity)));
  sec_cnt = from_le (take 4 (swapped capacity));
}

-- What `ioctl` does with a command: `none` for a negative result, or whether the drive reports success
-- with the bytes that it sends.
abbrev pub Drive : Type 0
Drive = List ℕ → Option (Bool × List ℕ)

-- the size of the buffer of get_disc_info
abbrev pub buf_len : ℕ
buf_len = 512

-- what the drive sends, over the front of the buffer
abbrev pub received : List ℕ → List ℕ → List ℕ
received bs buf = take (length buf) bs ++ drop (length bs) buf

-- the result of do_scsi_cmd, and the buffer behind the transfer
abbrev pub transferred : List ℕ → Option (Bool × List ℕ) → ℕ × List ℕ
transferred buf none = (minus_one, buf)
transferred buf (some (good, bs)) = (if good then 0 else 1, received bs buf)

-- do_scsi_cmd
unfoldable pub do_scsi_cmd : Drive → List ℕ → List ℕ → ℕ × List ℕ
do_scsi_cmd drv cmd buf = transferred buf (drv cmd)

-- `exit(-1)` on any result but 0
abbrev pub or_exit : {S : Type 0} → ℕ × List ℕ → Cmd S (List ℕ)
or_exit (res, buf) = if res == 0 then pure buf else λ _. died

-- a command of get_disc_info
unfoldable pub ask_drive : {S : Type 0} → Drive → ℕ → List ℕ → Cmd S (List ℕ)
ask_drive drv type buf = or_exit (do_scsi_cmd drv (get_scsi_cmd type) buf)

-- get_disc_info for a drive, with get_sn; the buffer is used for all three answers.
unfoldable pub read_info : {S : Type 0} → Drive → Cmd S DscInfo
read_info drv = do
  inqr ← ask_drive drv 1 (replicate buf_len 0)
  info ← ask_drive drv 2 inqr
  capacity ← ask_drive drv 0 info
  pure (get_disc_info inqr info capacity)
