-- ===== src/Tests/Formatting.antt =====
-- A drive of four megabytes that is formatted, with a cipher that changes nothing.
use fcfs.Base.{
  ltb, true, ◌==◌, if◌then◌else◌, get_or, List, ℕ, ◌+◌, ◌≡◌, ◌∷◌, ◌++◌, [], some, none, take,
  length, replicate, refl, arith,
}
use fcfs.Base.Monad.{ok, fault}
use fcfs.Structs.{Head}
use fcfs.Volume.{Volume}
use fcfs.Scsi.{DscInfo}
use fcfs.Mount.{mount}
use fcfs.Mount.Found.{mounted}
use fcfs.Fmt.{table_blocks, format_head, format}
use fcfs.Fmt.Layout.{IsDriveCipher}
use fcfs.Fmt.Fits.{IsWholeDrive}
use fcfs.Fmt.Mounted.{fresh, fresh_bitmap, format-mount}
use fcfs.Device.{bytes_at}
use fcfs.Ctable.{sum_fids, decode}
use fcfs.Clusters.Ready.{Ready}
use fcfs.Fmt.Fresh.{IsCleared}
use fcfs.Fmt.Start.{IsDivided}
use fcfs.Utils.{Text}
use fcfs.Start.{Gcrypt, opt_passwd, opt_dev, no_setup, get_opt, set_up, ops_init}
use fcfs.Cache.{cache_init}
use fcfs.Scsi.{
  Drive, read_info, ask_drive, do_scsi_cmd, get_scsi_cmd, get_disc_info, fill_field, swapped,
  swap_byte,
}
use fcfs.Scsi.Capacity.{from_be}
use fcfs.Scsi.Exchange.{Answers, read_info_lem}
use fcfs.Start.Session.{Tells}
use fcfs.Start.Options.{Opens, both_set, get_opt_lem}
use fcfs.Start.Session.{IsFormattable, dash_p, fmt_main-ops_init}
use fcfs.Fmt.Main.{password_of, fmt_main}
use fcfs.Tests.Files.{maps}
use fcfs.Tests.Mounting.{keeping, big, keeping-IsCipher}

abbrev pub stick : DscInfo
stick = record {
  sn = [];
  vendor = replicate 8 0;
  product = replicate 16 0;
  ver = replicate 8 0;
  sec_sz = 512;
  sec_cnt = 8192;
}

-- the answer to the question for the capacity
abbrev capacity_answer : List ℕ
capacity_answer = 0 ∷ 0 ∷ 32 ∷ 0 ∷ 0 ∷ 0 ∷ 2 ∷ 0 ∷ []

-- a drive that sends nothing but its capacity
abbrev pub stick_drive : Drive
stick_drive cmd = some (true, if get_or cmd 0 0 == 0x25 then capacity_answer else [])

pub stick_drive-Tells : Tells stick_drive stick
unfolding read_info ask_drive do_scsi_cmd get_scsi_cmd get_disc_info fill_field swapped swap_byte
stick_drive-Tells = record { read = λ s. refl }

stick_drive-Answers : Answers stick_drive [] [] capacity_answer
unfolding get_scsi_cmd
stick_drive-Answers = record { serial = refl; vendor = refl; size = refl }

read_info_lem_example :
    (info : DscInfo) × (read_info {S = ℕ} stick_drive 5 ≡ ok info 5)
    × (info.sec_cnt ≡ from_be (0 ∷ 0 ∷ 32 ∷ 0 ∷ []) 0)
    × (info.sec_sz ≡ from_be (0 ∷ 0 ∷ 2 ∷ 0 ∷ []) 0)
    × (length info.product ≡ 16)
read_info_lem_example =
    read_info_lem {S = ℕ} stick_drive [] [] [] 0 0 32 0 0 0 2 0 5 stick_drive-Answers

abbrev pub blank : Volume
blank = record big { dev = record { byte = λ a. 0; size = 4194304; pos = 5 } }

pub stick-IsWholeDrive : IsWholeDrive 512 8192 4194304
unfolding table_blocks
stick-IsWholeDrive = record {
  geometry = record {
    sector_low = omega arith;
    sector_high = omega arith;
    count_high = omega arith;
    room = omega arith;
  };
  block_holds_head = omega arith;
  whole = omega arith;
}

pub stick_cipher : (h : Head) → IsDriveCipher blank h
stick_cipher h = record {
  block = keeping-IsCipher _;
  table = keeping-IsCipher _;
  cluster = keeping-IsCipher _;
}

format-mount_example :
    (w : Volume) × (format (λ a. 0) (λ a. 1) stick 1500000000 blank ≡ ok tt w)
    × (mount stick (record big { dev = w.dev })
        ≡ ok 0 (
            mounted
              (record big { dev = w.dev })
              (fresh big (format_head 512 8192 1500000000))
              (fresh_bitmap (format_head 512 8192 1500000000))))
format-mount_example =
    format-mount (λ a. 0) (λ a. 1) stick 1500000000 blank big stick-IsWholeDrive (omega arith)
      (stick_cipher (format_head 512 8192 1500000000)) (omega arith) refl

pub stick-IsDivided : IsDivided (format_head 512 8192 1500000000) 4194304
unfolding table_blocks format_head
stick-IsDivided = record { block_over = omega arith; flags = omega arith; addressed = omega arith }

stick-IsCleared : IsCleared (format_head 512 8192 1500000000) (λ a. 0)
unfolding table_blocks format_head decode bytes_at sum_fids
stick-IsCleared = record { stale = λ c pos lt. refl }

-- a hash that pads the password, a cipher that changes nothing whatever its key, and an allocator that
-- rounds up
abbrev padding : Gcrypt
padding = record {
  md_hash = λ pass. take 32 (pass ++ replicate 32 0);
  open_cipher = λ key iv. some keeping;
}

abbrev rounding : ℕ → ℕ
rounding n = n + 8

abbrev secret : Text
secret = 115 ∷ 101 ∷ 99 ∷ 114 ∷ 101 ∷ 116 ∷ []

abbrev device_path : Text
device_path = 47 ∷ 100 ∷ 101 ∷ 118 ∷ 47 ∷ 115 ∷ 100 ∷ 98 ∷ []

secret-Opens : Opens padding secret keeping
secret-Opens = record { size = refl; opened = refl }

stick-IsFormattable : IsFormattable stick 1500000000 keeping blank
stick-IsFormattable = record {
  drive = stick-IsWholeDrive;
  time = omega arith;
  cipher = stick_cipher (format_head 512 8192 1500000000);
  label = omega arith;
  divided = stick-IsDivided;
  cleared = stick-IsCleared;
}

abbrev option_p : Text
option_p = b'-' ∷ b'p' ∷ []

abbrev option_b : Text
option_b = b'-' ∷ b'b' ∷ []

fmt_main-ops_init_example :
    (w z : Volume) × (fmt_main padding rounding
        (λ a. 0)
        (λ a. 1)
        (device_path ∷ dash_p secret ∷ [])
        []
        stick_drive
        1500000000
        blank
      ≡ ok tt w)
    × (set_up padding rounding
          ((opt_passwd, option_p ++ (b'=' ∷ secret))
            ∷ (opt_dev, option_b ++ (b'=' ∷ device_path))
            ∷ [])
          []
          no_setup
        ≡ ok tt (both_set keeping device_path))
    × (ops_init maps stick_drive (record blank { ciph = keeping; dev = w.dev })
        ≡ ok tt (cache_init maps z))
    × Ready z
unfolding password_of
fmt_main-ops_init_example =
    fmt_main-ops_init padding rounding maps (λ a. 0) (λ a. 1) device_path option_p option_b secret
      device_path [] stick_drive stick 1500000000 keeping blank stick_drive-Tells refl (omega arith)
      (omega arith) (omega arith) (omega arith) secret-Opens stick-IsFormattable

get_opt_lem_example :
    (get_opt rounding option_p no_setup ≡ ok none no_setup)
    × (get_opt rounding (option_p ++ (b'=' ∷ secret)) no_setup ≡ (
        if ltb (length secret) (rounding (length secret))
        then ok (some secret) no_setup
        else fault))
get_opt_lem_example = get_opt_lem rounding option_p secret no_setup (omega arith)
