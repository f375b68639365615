-- ===== src/Utils.antt =====
-- lib/utils.c without the terminal: paths and block counts. A C string is the list of its codes;
-- reading at its length gives the terminator 0.
pub mod Blocks
pub mod Paths
use fcfs.Base.{
  ℕ, zero, suc, ◌+◌, ◌-◌, ◌/◌, Bool, true, false, Option, none, some, List, [], ◌∷◌, ◌==◌,
  if◌then◌else◌, get_or, take, drop, length,
}

abbrev pub Text : Type 0
Text = List ℕ

abbrev pub slash : ℕ
slash = b'/'

-- `while(path[i] != '/') i--;`, and `none` for a read in front of the string
pub back_to_slash : Text → ℕ → Option ℕ
back_to_slash path zero = if get_or path 0 0 == slash then some 0 else none
back_to_slash path (suc i) =
    let rest = back_to_slash path i in if get_or path (suc i) 0 == slash then some (suc i) else rest

-- get_parrent_path
pub get_parrent_path : Text → Option ℕ
get_parrent_path path = back_to_slash path (length path)

-- The path that fcfs_get_pfid looks up: the first `p_len` bytes, one byte for the root.
pub parrent : Text → Option Text
parrent path = elim (get_parrent_path path) [
  | none ↦ none
  | some p_len ↦ some (take (if p_len == 0 then 1 else p_len) path)
]

-- `path + p_len` after `p_len += 1`: the name that ops_create, ops_mkdir and _ops_getattr use
pub last_name : Text → Option Text
last_name path = elim (get_parrent_path path) [
  | none ↦ none
  | some p_len ↦ some (drop (p_len + 1) path)
]

-- `strcmp(a, tmp) == 0` where `tmp` is a buffer with no terminator: `none` for a read behind it
pub strcmp_raw : Text → Text → Option Bool
strcmp_raw a [] = none
strcmp_raw [] (c ∷ tmp) = some false
strcmp_raw (b ∷ a) (c ∷ tmp) = let rest = strcmp_raw a tmp in if b == c then rest else some false

-- pathcmp, on two pointers that are not null
pub pathcmp : Text → Text → Option Bool
pathcmp a b = elim (get_parrent_path b) [ none ↦ none | some bl ↦ strcmp_raw a (take bl b) ]

-- to_blk_cnt, for a length that is not negative and a positive block size: there the quotient of
-- two ints in double precision is rounded up exactly
unfoldable pub to_blk_cnt : ℕ → ℕ → ℕ
to_blk_cnt data_len lblk_sz = (data_len + lblk_sz - 1) / lblk_sz
