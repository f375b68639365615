-- ===== src/Ops.antt =====
-- fcfs/src/ops: the callbacks of libfuse. The user, the group and the time are arguments; results
-- that a callback writes through a pointer are returned beside its own.
use fcfs.Base.{
  ℕ, zero, suc, Bool, false, Option, none, some, List, [], ◌∷◌, ◌==◌, if◌then◌else◌, length,
  get_elem?,
}
use fcfs.Base.Monad.{out_of_fuel, ◌>>=◌, ◌>>◌, pure, get, need}
use fcfs.Utils.{Text, slash, parrent, last_name}
use fcfs.Clusters.{free_fid}
use fcfs.File.{init_file}
use fcfs.Password.{c_string}
use fcfs.Cache.{Maps, Stat, D, on_volume, cache_seq_rm, cache_stat_get, cache_stat_add}
use fcfs.FileSeq.{file_size}
use fcfs.Dir.{DirEntry, read_dir}
use fcfs.Files.{enoent, rm_file, create_file}

-- getuid, getgid and time
pub record Env : Type 0 where
  pub uid : ℕ
  pub gid : ℕ
  pub now : ℕ

-- `strcmp(name, t) == 0` for the array of a name: `none` for a read behind the array
pub strcmp_field : List ℕ → Text → Option Bool
strcmp_field [] t = none
strcmp_field (b ∷ bs) [] = some (b == 0)
strcmp_field (b ∷ bs) (c ∷ t) = let rest = strcmp_field bs t in if b == c then rest else some false

-- The first entry with a name; `none` for a read behind a name.
pub find_name : List DirEntry → Text → Option (Option DirEntry)
find_name [] t = some none
find_name (e ∷ es) t =
    let rest = find_name es t in
    elim (strcmp_field e.name t) [ none ↦ none | some hit ↦ if hit then some (some e) else rest ]

-- `memset`, and what a full request sets at once
abbrev pub blank_stat : Env → Bool → Stat
blank_stat env flag = record {
  st_dev = 0;
  st_mode = 0;
  st_nlink = 0;
  st_uid = if flag then env.uid else 0;
  st_gid = if flag then env.gid else 0;
  st_size = 0;
  st_atime = if flag then env.now else 0;
  st_mtime = if flag then env.now else 0;
  st_ctime = 0;
}

abbrev pub root_path : Text
root_path = slash ∷ []

abbrev pub is_root : Text → Bool
is_root [] = false
is_root (c ∷ []) = c == slash
is_root (c ∷ d ∷ t) = false

-- 0040000 | 0777
abbrev pub root_mode : ℕ
root_mode = 16895

-- The names of the entries, without the empty ones; `none` for a name with no terminator.
unfoldable pub entry_names : List DirEntry → Option (List Text)
entry_names [] = some []
entry_names (e ∷ es) =
    let name : Text = c_string e.name in
    let rest = entry_names es in
    if length name == length e.name
    then none
    else elim rest [ none ↦ none | some ns ↦ some (if length name == 0 then ns else name ∷ ns) ]

module _ (m : Maps) (env : Env) where
  abbrev size_if : Bool → ℕ → D m ℕ
  size_if flag fid = if flag then file_size m fid else pure 0

  -- _ops_getattr: the result and the attributes. The fuel counts the directories above the file.
  unfoldable pub getattr : ℕ → Text → Bool → D m (ℕ × Stat)
  getattr zero path flag = λ _. out_of_fuel
  getattr (suc fuel) path flag = do
    cached ← if flag then pure none else cache_stat_get m path
    elim cached [
      | some st ↦ pure (0, st)
      | none ↦
          if is_root path
          then (do
            size ← size_if flag 0
            pure (
              0,
              record (blank_stat env flag) { st_mode = root_mode; st_nlink = 2; st_size = size },
            ))
          else (do
            dir ← need (parrent path)
            (res, above) ← getattr fuel dir false
            dirs ← read_dir m above.st_dev
            name ← need (last_name path)
            found ← need (find_name (elim dirs [ none ↦ [] | some ents ↦ ents ]) name)
            elim found [
              | none ↦ pure (enoent, blank_stat env flag)
              | some e ↦ (do
                d ← get
                t ← need (get_elem? d.vol.fs_table.entrs e.fid)
                size ← size_if flag e.fid
                let st = record (blank_stat env flag) {
                  st_dev = e.fid;
                  st_mode = e.mode;
                  st_nlink = t.lnk_cnt;
                  st_size = size;
                  st_atime = e.atime;
                  st_mtime = e.mtime;
                  st_ctime = e.ctime;
                }
                cache_stat_add m path st
                pure (0, st))
            ])
    ]

  -- fcfs_get_fid: the result of the search is not looked at.
  unfoldable pub get_fid : ℕ → Text → D m ℕ
  get_fid fuel path = do (res, st) ← getattr fuel path false; pure st.st_dev

  -- fcfs_get_pfid
  pub get_pfid : ℕ → Text → D m ℕ
  get_pfid fuel path = do dir ← need (parrent path); get_fid fuel dir

  -- ops_create with the type 0100000, and ops_mkdir with the type 0040000, which looks up the
  -- directory after the file number
  pub ops_create : ℕ → Text → ℕ → D m ℕ
  ops_create fuel path mode = do
    pfid ← get_pfid fuel path
    fid ← on_volume m free_fid
    name ← need (last_name path)
    res ← create_file m fuel pfid fid name mode env.now
    made ← on_volume m (init_file fid)
    pure 0

  pub ops_mkdir : ℕ → Text → ℕ → D m ℕ
  ops_mkdir fuel path mode = do
    name ← need (last_name path)
    fid ← on_volume m free_fid
    pfid ← get_pfid fuel path
    res ← create_file m fuel pfid fid name mode env.now
    made ← on_volume m (init_file fid)
    pure 0

  -- ops_unlink
  pub ops_unlink : ℕ → Text → D m ℕ
  ops_unlink fuel path = do
    fid ← get_fid fuel path
    pfid ← get_pfid fuel path
    res ← rm_file m fuel fid pfid
    pure 0

  -- ops_open: `fi->fh`
  pub ops_open : ℕ → Text → D m ℕ
  ops_open fuel path = get_fid fuel path

  -- ops_readdir: the names that are handed to the filler behind "." and ".."
  unfoldable pub ops_readdir : ℕ → Text → D m (List Text)
  ops_readdir fuel path = do
    fid ← get_fid fuel path
    dirs ← read_dir m fid
    need (entry_names (elim dirs [ none ↦ [] | some ents ↦ ents ]))

  -- ops_release
  pub ops_release : ℕ → D m ℕ
  ops_release fh = do cache_seq_rm m fh; pure 0

  -- ops_releasedir, ops_opendir and ops_rmdir
  pub ops_releasedir : ℕ → D m ℕ
  ops_releasedir fh = do cache_seq_rm m fh; pure 0

  pub ops_opendir : ℕ → Text → D m ℕ
  ops_opendir fuel path = get_fid fuel path

  pub ops_rmdir : ℕ → Text → D m ℕ
  ops_rmdir fuel path = do
    fid ← get_fid fuel path
    pfid ← get_pfid fuel path
    res ← rm_file m fuel fid pfid
    pure 0

  -- The callbacks that do nothing: ops_flush, ops_truncate to a length, ops_utimens to two times, and
  -- ops_chown to a user and a group.
  pub ops_flush : Text → D m ℕ
  ops_flush path = pure 0

  pub ops_truncate : Text → ℕ → D m ℕ
  ops_truncate path offset = pure 0

  pub ops_utimens : Text → ℕ → ℕ → D m ℕ
  ops_utimens path atime mtime = pure 0

  pub ops_chown : Text → ℕ → ℕ → D m ℕ
  ops_chown path u g = pure 0
