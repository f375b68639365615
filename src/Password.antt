-- ===== src/Password.antt =====
-- The password prompt of fcfs/src/fcfs.c and fmtr/fcfsfmt.c, over the keys that `getch` returns.
pub mod Length
use fcfs.Base.{
  ℕ, zero, suc, ◌+◌, ◌%◌, ◌^◌, Option, none, some, List, [], ◌∷◌, leb, ◌==◌, if◌then◌else◌, set,
  replicate,
}
use fcfs.Base.Words.{u8}
use fcfs.Structs.{min_password_len}

-- PASSWD_BUF_LEN
abbrev pub passwd_buf_len : ℕ
passwd_buf_len = 1024

abbrev pub newline : ℕ
newline = 10

-- The loop of get_passwd; `none` while it waits for a key. The position counts every key, the
-- newlines too, in an `unsigned char`.
pub prompt : List ℕ → ℕ → List ℕ → Option (List ℕ)
prompt [] c_buf_pos buf = none
prompt (c ∷ keys) c_buf_pos buf =
    let rest =
      prompt keys (u8 (c_buf_pos + 1)) (if c == newline then buf else set buf c_buf_pos c) in
    if c == newline then (if leb min_password_len c_buf_pos then some buf else rest) else rest

-- the string in a buffer: the codes in front of the first 0
pub c_string : List ℕ → List ℕ
c_string [] = []
c_string (c ∷ cs) = let rest = c_string cs in if c == 0 then [] else c ∷ rest

-- get_passwd up to the hash: the string that get_md is given
pub get_passwd : List ℕ → Option (List ℕ)
get_passwd keys = elim (prompt keys 0 (replicate passwd_buf_len 0)) [
  | none ↦ none
  | some buf ↦ some (c_string buf)
]
