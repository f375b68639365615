-- ===== src/Cache.antt =====
-- fcfs/src/cache: the lists of blocks and the file attributes that the driver keeps in two hash maps.
-- The hash map is a submodule of the repository, and so a parameter. A list of blocks is an object
-- that the map and the callers share; an object has a number, and a freed one is `none`.
use fcfs.Base.{
  ℕ, zero, suc, ◌+◌, ◌/◌, ◌%◌, Option, none, some, List, [], ◌∷◌, ◌++◌, ◌==◌, if◌then◌else◌, length,
  get_elem?, set,
}
use fcfs.Base.Monad.{ok, died, fault, out_of_fuel, Cmd, ◌>>=◌, ◌>>◌, pure, get, modify}
use fcfs.Base.Words.{is_neg, magnitude}
use fcfs.Structs.{BlkInfo}
use fcfs.Utils.{Text}
use fcfs.Volume.{Volume, M}

-- hashmap_new, hashmap_get, hashmap_put, hashmap_remove and hashmap_clear, over a type of values; `none` of `put`
-- is MAP_FULL or MAP_OMEM, and `items` are the values that hashmap_clear hands to its callback.
pub record HashMap (V : Type 0) : Type 1 where
  pub Map : Type 0
  pub new : Map
  pub look : Map → Text → Option V
  pub put : Map → Text → V → Option Map
  pub remove : Map → Text → Map
  pub clear : Map → Map
  pub items : Map → List V

-- The fields of `struct stat` that the driver sets.
pub record Stat : Type 0 where
  pub st_dev : ℕ
  pub st_mode : ℕ
  pub st_nlink : ℕ
  pub st_uid : ℕ
  pub st_gid : ℕ
  pub st_size : ℕ
  pub st_atime : ℕ
  pub st_mtime : ℕ
  pub st_ctime : ℕ

-- The maps of `map_seq`, to the numbers of lists, and of `map_fid`.
pub record Maps : Type 1 where
  pub seqs : HashMap ℕ
  pub stats : HashMap Stat

-- The driver while it is mounted: the volume, the lists of blocks and the two maps.
pub record Driver (m : Maps) : Type 0 where
  pub vol : Volume
  pub lists : List (Option (List BlkInfo))
  pub map_seq : m.seqs.Map
  pub map_fid : m.stats.Map

abbrev pub D : Maps → Type 0 → Type 0
D m A = Cmd (Driver m) A

-- the decimal digits of a number, at most `fuel` of them, in front of `rest`
abbrev pub digits : ℕ → ℕ → Text → Text
digits zero n rest = rest
digits (suc fuel) n rest =
    let more = digits fuel (n / 10) ((48 + n % 10) ∷ rest) in
    if n / 10 == 0 then (48 + n % 10) ∷ rest else more

-- `sprintf(p, "%d", id)`
pub decimal : ℕ → Text
decimal id = if is_neg id then b'-' ∷ digits 10 (magnitude id) [] else digits 10 id []

module _ (m : Maps) where
  -- a command on the volume
  abbrev pub on_volume : {A : Type 0} → M A → D m A
  on_volume c d = elim (c d.vol) [
    | ok a v ↦ ok a (record d { vol = v })
    | died ↦ died
    | fault ↦ fault
    | out_of_fuel ↦ out_of_fuel
  ]

  -- a new list of blocks, and its number
  abbrev pub new_list : List BlkInfo → D m ℕ
  new_list l d = ok (length d.lists) (record d { lists = d.lists ++ some l ∷ [] })

  -- the blocks of a list; a freed one is a fault
  abbrev pub list_of : ℕ → D m (List BlkInfo)
  list_of h d = elim (get_elem? d.lists h) [
    | none ↦ fault
    | some none ↦ fault
    | some (some l) ↦ ok l d
  ]

  abbrev pub set_list : ℕ → List BlkInfo → D m (Unit {0})
  set_list h l = modify (λ d. record d { lists = set d.lists h (some l) })

  -- dev_destr_blk_info
  pub destr_blk_info : ℕ → D m (Unit {0})
  destr_blk_info h = do old ← list_of h; modify (λ d. record d { lists = set d.lists h none })

  -- seq_destroy on every value of the map
  pub destr_all : List ℕ → D m (Unit {0})
  destr_all [] = pure tt
  destr_all (h ∷ hs) = destr_blk_info h >> destr_all hs

  -- cache_seq_get: the list and its length
  unfoldable pub cache_seq_get : ℕ → D m (Option (ℕ × ℕ))
  cache_seq_get id = do
    d ← get
    elim (m.seqs.look d.map_seq (decimal id)) [
      | none ↦ pure none
      | some h ↦ (do l ← list_of h; pure (some (h, length l)))
    ]

  -- cache_seq_add: a map that is full is cleared, and its lists are destroyed.
  unfoldable pub cache_seq_add : ℕ → ℕ → D m (Unit {0})
  cache_seq_add id h = do
    d ← get
    elim (m.seqs.put d.map_seq (decimal id) h) [
      | none ↦
          destr_all (m.seqs.items d.map_seq)
          >> modify (λ d. record d { map_seq = m.seqs.clear d.map_seq })
      | some map ↦ modify (λ d. record d { map_seq = map })
    ]

  -- cache_seq_rm
  pub cache_seq_rm : ℕ → D m (Unit {0})
  cache_seq_rm id = do
    found ← cache_seq_get id
    elim found [
      | none ↦ pure tt
      | some (h, sz) ↦
          destr_blk_info h
          >> modify (λ d. record d { map_seq = m.seqs.remove d.map_seq (decimal id) })
    ]

  -- cache_stat_get: a copy
  unfoldable pub cache_stat_get : Text → D m (Option Stat)
  cache_stat_get path = do d ← get; pure (m.stats.look d.map_fid path)

  -- cache_stat_add: a copy; a map that is full is cleared.
  pub cache_stat_add : Text → Stat → D m (Unit {0})
  cache_stat_add path st = modify (λ d. elim (m.stats.put d.map_fid path st) [
    | none ↦ record d { map_fid = m.stats.clear d.map_fid }
    | some map ↦ record d { map_fid = map }
  ])

  -- cache_seq_init, cache_stat_init and cache_init: a driver with empty maps
  abbrev pub cache_seq_init : m.seqs.Map
  cache_seq_init = m.seqs.new

  abbrev pub cache_stat_init : m.stats.Map
  cache_stat_init = m.stats.new

  unfoldable pub cache_init : Volume → Driver m
  cache_init v = record { vol = v; lists = []; map_seq = cache_seq_init; map_fid = cache_stat_init }

  -- cache_seq_destroy, with seq_destroy on every list; cache_stat_destroy, and cache_destroy
  pub cache_seq_destroy : D m (Unit {0})
  cache_seq_destroy = do
    d ← get
    destr_all (m.seqs.items d.map_seq)
    modify (λ d. record d { map_seq = m.seqs.clear d.map_seq })

  pub cache_stat_destroy : D m (Unit {0})
  cache_stat_destroy = modify (λ d. record d { map_fid = m.stats.clear d.map_fid })

  pub cache_destroy : D m (Unit {0})
  cache_destroy = cache_seq_destroy >> cache_stat_destroy
