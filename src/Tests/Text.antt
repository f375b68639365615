-- ===== src/Tests/Text.antt =====
-- Paths, lengths, the geometry of a drive, its capacity and passwords.
use fcfs.Base.{◌+◌, ◌-◌, ◌%◌, ◌≡◌, ◌≢◌, true, none, some, [], ◌∷◌, arith}
use fcfs.Utils.{parrent, last_name, pathcmp}
use fcfs.Utils.Paths.{parrent-last_name, pathcmp-ne}
use fcfs.Fmt.{table_blocks, format_head}
use fcfs.Fmt.Geometry.{data_end, data_end_lem}
use fcfs.Password.{newline, get_passwd}
use fcfs.Password.Length.{get_passwd-typed, get_passwd-newlines}

-- "/a" and the file "b" in it

parrent-last_name_example :
    (parrent (47 ∷ 97 ∷ 47 ∷ 98 ∷ []) ≡ some (47 ∷ 97 ∷ []))
    × (last_name (47 ∷ 97 ∷ 47 ∷ 98 ∷ []) ≡ some (98 ∷ []))
    × (parrent (98 ∷ []) ≡ none)
    × (last_name (98 ∷ []) ≡ none)
parrent-last_name_example = parrent-last_name (47 ∷ 97 ∷ []) (98 ∷ []) (omega arith, tt)

pathcmp-ne_example :
    (pathcmp (47 ∷ 97 ∷ []) (47 ∷ 97 ∷ 47 ∷ 98 ∷ []) ≢ some true)
    × (pathcmp (47 ∷ 97 ∷ []) (47 ∷ 97 ∷ 47 ∷ 98 ∷ []) ≡ none)
pathcmp-ne_example =
    pathcmp-ne (47 ∷ 97 ∷ []) (47 ∷ 97 ∷ 47 ∷ 98 ∷ []) (47 ∷ 97 ∷ []) (98 ∷ []) (omega arith, tt)

-- a drive of 32 MiB
data_end_lem_example :
    let h = format_head 512 65536 7 in
    data_end h + (h.blk_cnt - h.tbl_len - h.bmp_len - 1) % 8 ≡ h.blk_cnt + 1
unfolding table_blocks
data_end_lem_example = data_end_lem 512 65536 7 (record {
  sector_low = omega arith;
  sector_high = omega arith;
  count_high = omega arith;
  room = omega arith;
})

get_passwd-typed_example :
    get_passwd (65 ∷ 66 ∷ 67 ∷ 68 ∷ 69 ∷ 70 ∷ newline ∷ [])
    ≡ some (65 ∷ 66 ∷ 67 ∷ 68 ∷ 69 ∷ 70 ∷ [])
get_passwd-typed_example =
    get_passwd-typed (65 ∷ 66 ∷ 67 ∷ 68 ∷ 69 ∷ 70 ∷ []) (omega arith) (omega arith) (omega arith)

-- seven newlines alone
get_passwd-newlines_example :
    get_passwd (newline ∷ newline ∷ newline ∷ newline ∷ newline ∷ newline ∷ newline ∷ []) ≡ some []
get_passwd-newlines_example = get_passwd-newlines [] 7 tt (omega arith) (omega arith)
