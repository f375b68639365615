-- ===== src/Start.antt =====
-- fcfs/src/fcfs.c and fcfs/src/ops/main.c: options, password and cipher, and the driver from its start
-- to its end. libgcrypt, libfuse's reading of the command line and the size of what the allocator
-- hands out are arguments.
pub mod Options
pub mod Session
pub mod Listing
use fcfs.Base.{
  ℕ, ◌+◌, ◌/◌, Bool, true, false, Option, none, some, List, [], ◌∷◌, ◌++◌, ltb, ◌==◌, if◌then◌else◌,
  length, take, drop,
}
use fcfs.Base.Monad.{Run, ok, died, fault, out_of_fuel, Cmd, ◌>>=◌, ◌>>◌, pure, get, need, modify}
use fcfs.Utils.{Text}
use fcfs.Password.{get_passwd}
use fcfs.Volume.{Cipher, Volume}
use fcfs.Cache.{Maps, Driver, D, cache_init, cache_destroy}
use fcfs.Scsi.{Drive, read_info}
use fcfs.Device.{at}
use fcfs.Mount.{mount}

-- gcry_md_hash_buffer with SHA-256, and gcry_cipher_open with gcry_cipher_setkey and
-- gcry_cipher_setiv, for AES: `none` when one of them returns an error.
pub record Gcrypt : Type 0 where
  pub md_hash : List ℕ → List ℕ
  pub open_cipher : List ℕ → List ℕ → Option Cipher

-- MD_LEN
abbrev pub md_len : ℕ
md_len = 32

-- open_ciph, in the driver and in the formatter: key and initial vector are the halves of the hash.
pub open_ciph : {S : Type 0} → Gcrypt → List ℕ → Cmd S Cipher
open_ciph g md =
    if ltb (length md) md_len
    then (λ _. fault)
    else elim (g.open_cipher (take (md_len / 2) md) (take (md_len / 2) (drop (md_len / 2) md))) [
      | none ↦ λ _. died
      | some c ↦ pure c
    ]

-- `strcpy` of a string into a buffer that was allocated with the string's length: the terminator needs
-- a byte that the allocator has handed out beyond it.
abbrev pub strcpy_into : {S : Type 0} → (ℕ → ℕ) → Text → Cmd S Text
strcpy_into usable s = if ltb (length s) (usable (length s)) then pure s else λ _. fault

-- `strstr(s, "=")`, and the string behind it
pub behind_equals : Text → Option Text
behind_equals [] = none
behind_equals (c ∷ s) = let rest = behind_equals s in if c == b'=' then some s else rest

-- the copy of what `strstr` has found
abbrev pub copy_value : {S : Type 0} → (ℕ → ℕ) → Option Text → Cmd S (Option Text)
copy_value usable none = pure none
copy_value usable (some pos) = do res ← strcpy_into usable pos; pure (some res)

-- get_opt: `none` is NULL
pub get_opt : {S : Type 0} → (ℕ → ℕ) → Text → Cmd S (Option Text)
get_opt usable s = copy_value usable (behind_equals s)

-- The keys of fcfs_opt, and that of an argument that matches none of them.
pub data OptKey : Type 0 where
  opt_ver opt_help opt_passwd opt_dev opt_other : OptKey

-- The fields of `fcfs_args_t` that options set, `need_pass`, and the arguments left for fuse_main.
pub record Setup : Type 0 where
  pub ciph : Option Cipher
  pub p_dev : Option Text
  pub need_pass : Bool
  pub outargs : List Text

abbrev add_arg : Text → Cmd Setup (Unit {0})
add_arg t = modify (λ s. record s { outargs = s.outargs ++ t ∷ [] })

abbrev pub version_arg : Text
version_arg = b'-' ∷ b'-' ∷ b'v' ∷ b'e' ∷ b'r' ∷ b's' ∷ b'i' ∷ b'o' ∷ b'n' ∷ []

abbrev pub help_arg : Text
help_arg = b'-' ∷ b'-' ∷ b'h' ∷ b'e' ∷ b'l' ∷ b'p' ∷ []

module _ (g : Gcrypt) (usable : ℕ → ℕ) where
  -- fcfs_opt_proc; the hash of NULL is a fault.
  pub fcfs_opt_proc : OptKey → Text → Cmd Setup ℕ
  fcfs_opt_proc opt_ver arg = do
    add_arg version_arg
    modify (λ s. record s { need_pass = false })
    pure 1
  fcfs_opt_proc opt_help arg = do
    add_arg help_arg
    modify (λ s. record s { need_pass = false })
    pure 1
  fcfs_opt_proc opt_passwd arg = do
    a ← get_opt usable arg
    pass ← need a
    c ← open_ciph g (g.md_hash pass)
    modify (λ s. record s { ciph = some c; need_pass = false })
    pure 0
  fcfs_opt_proc opt_dev arg = do
    a ← get_opt usable arg
    modify (λ s. record s { p_dev = a })
    pure 0
  fcfs_opt_proc opt_other arg = pure 1

  -- The calls that fuse_opt_parse makes, with the key that it has found for each argument; an argument
  -- is kept when the result is 1.
  pub parse_opts : List (OptKey × Text) → Cmd Setup (Unit {0})
  parse_opts [] = pure tt
  parse_opts ((key, arg) ∷ args) = do
    keep ← fcfs_opt_proc key arg
    if keep == 1 then add_arg arg else pure tt
    parse_opts args

  -- get_passwd of the typed keys, with the hash; a prompt that still waits is out of fuel.
  pub ask_passwd : {S : Type 0} → List ℕ → Cmd S Cipher
  ask_passwd keys = elim (get_passwd keys) [
    | none ↦ λ _. out_of_fuel
    | some pass ↦ open_ciph g (g.md_hash pass)
  ]

  -- main up to fuse_main
  pub set_up : List (OptKey × Text) → List ℕ → Cmd Setup (Unit {0})
  set_up args keys = do
    parse_opts args
    s ← get
    if s.need_pass
        then (do c ← ask_passwd keys; modify (λ s. record s { ciph = some c }))
        else pure tt

-- the setup after the `memset`
abbrev pub no_setup : Setup
no_setup = record { ciph = none; p_dev = none; need_pass = true; outargs = [] }

module _ (m : Maps) where
  -- what ops_init does with the result of dev_mount
  abbrev pub initialised : Run Volume ℕ → Run (Driver m) (Unit {0})
  initialised (ok res v) = if res == 0 then ok tt (cache_init m v) else died
  initialised died = died
  initialised fault = fault
  initialised out_of_fuel = out_of_fuel

  -- ops_init for the volume of the opened device and cipher, and the drive behind its path;
  -- get_disc_info, which dev_mount calls, either fills the information or ends the program.
  pub ops_init : Drive → Volume → Run (Driver m) (Unit {0})
  ops_init drv v = initialised ((read_info drv >>= mount) v)

  -- ops_destroy: nothing is written to the device.
  pub ops_destroy : D m (Unit {0})
  ops_destroy = cache_destroy m
