-- ===== src/Fmt/Main.antt =====
-- fmtr/fcfsfmt.c: the options of the formatter, and its main.
use fcfs.Base.{ℕ, Option, none, some, List, [], ◌∷◌, ◌==◌, ◌&&◌, if◌then◌else◌}
use fcfs.Base.Monad.{died, Cmd, ◌>>=◌, ◌>>◌, pure, modify}
use fcfs.Utils.{Text}
use fcfs.Volume.{Cipher, M}
use fcfs.Scsi.{Drive, read_info}
use fcfs.Start.{Gcrypt, open_ciph, strcpy_into, ask_passwd}
use fcfs.Fmt.{format}

-- The password in an argument that starts with `-p`.
unfoldable pub password_of : Text → Option Text
password_of [] = none
password_of (a ∷ []) = none
password_of (a ∷ b ∷ pass) = if a == b'-' && b == b'p' then some pass else none

module _ (g : Gcrypt) (usable : ℕ → ℕ) where
  -- One round of the loop of proc_opt, with the rounds behind it: a password opens a cipher.
  abbrev pub take_password :
      {S : Type 0}
      → (Option Cipher → Cmd S (Option Cipher))
      → Option Cipher
      → Option Text
      → Cmd S (Option Cipher)
  take_password rest c none = rest c
  take_password rest c (some given) = do
    pass ← strcpy_into usable given
    opened ← open_ciph g (g.md_hash pass)
    rest (some opened)

  -- The loop of proc_opt over the arguments behind the program's name.
  unfoldable pub proc_args : {S : Type 0} → List Text → Option Cipher → Cmd S (Option Cipher)
  proc_args [] c = pure c
  proc_args (arg ∷ args) c = take_password (proc_args args) c (password_of arg)

  -- proc_opt, with the prompt when no password is given
  unfoldable pub proc_opt : {S : Type 0} → List Text → List ℕ → Cmd S Cipher
  proc_opt args keys = do
    c ← proc_args args none
    elim c [ none ↦ ask_passwd g usable keys | some opened ↦ pure opened ]

  -- main, for the arguments behind the program's name, and the drive behind the first
  unfoldable pub fmt_main : (ℕ → ℕ) → (ℕ → ℕ) → List Text → List ℕ → Drive → ℕ → M (Unit {0})
  fmt_main mem stack [] keys drv now = λ _. died
  fmt_main mem stack (dev ∷ args) keys drv now = do
    c ← proc_opt (dev ∷ args) keys
    modify (λ v. record v { ciph = c })
    info ← read_info drv
    format mem stack info now
