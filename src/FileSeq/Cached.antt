-- ===== src/FileSeq/Cached.antt =====
-- dev_get_file_seq with and without the list in the cache.
use fcfs.Base.{
  ℕ, ◌≤◌, ◌≡◌, ◌≢◌, refl, ap, none, some, List, [], ◌∷◌, ◌++◌, length, get_elem?, get_elem?-last,
}
use fcfs.Base.Monad.{ok}
use fcfs.Structs.{BlkInfo, TableEntry}
use fcfs.Device.{at}
use fcfs.Clusters.Coherent.{Coherent}
use fcfs.Clrs.{with_cache}
use fcfs.Clrs.Known.{Known}
use fcfs.Files.Release.{OnVolume}
use fcfs.Seq.Sort.{first_two}
use fcfs.FileSeq.Blocks.{file_blocks, read_seq-file_blocks}
use fcfs.Utils.{Text}
use fcfs.Volume.{Volume}
use fcfs.Cache.{HashMap, Maps, Driver, decimal, list_of, cache_seq_get, cache_seq_add, on_volume}
use fcfs.FileSeq.{read_seq, get_file_seq}

-- What a map answers for a key that has just been put.
abbrev pub Finds : {V : Type 0} → HashMap V → Type 0
Finds {V} hm = (t t' : hm.Map) (k : Text) (v : V) → hm.put t k v ≡ some t' → hm.look t' k ≡ some v

module _ (m : Maps) (fid : ℕ) where
  hit :
      (d : Driver m) (h : ℕ) (l : List BlkInfo)
      → m.seqs.look d.map_seq (decimal fid) ≡ some h
      → get_elem? d.lists h ≡ some (some l)
      → get_file_seq m fid d ≡ ok (h, length l) d
  unfolding get_file_seq cache_seq_get
  hit d h l cached list = rw (cached, list, list_of) refl

  pub miss :
      (d : Driver m) (l : List BlkInfo) (v : Volume) (t : m.seqs.Map)
      → m.seqs.look d.map_seq (decimal fid) ≡ none
      → read_seq fid d.vol ≡ ok l v
      → m.seqs.put d.map_seq (decimal fid) (length d.lists) ≡ some t
      → get_file_seq m fid d
        ≡ ok
            (length d.lists, length l)
            (record d { vol = v; lists = d.lists ++ some l ∷ []; map_seq = t })
  unfolding get_file_seq cache_seq_get cache_seq_add
  miss d l v t absent read put = rw (absent, read, on_volume, put) refl

  -- With a hash map that finds what was put, for a file other than 0 without a second stage whose
  -- clusters lie on the volume and hold a block of it, on a volume whose bitmap agrees with its tables
  -- of owners: when the file's list is not in the cache and finds room in the map, dev_get_file_seq
  -- returns a new list. It has one link for each block that the tables of owners give to the file in
  -- its clusters, with the number that stands there, in the order of clusters and blocks but for the
  -- first two links, which are put in the order of their numbers. The new list stands behind the old
  -- ones, and nothing else has changed but the map of lists, the cache of clusters and the place of
  -- the stream. A second call returns the same list and changes nothing.
  pub get_file_seq-get_file_seq :
      (d : Driver m) (e : TableEntry) (ids : List ℕ) (t : m.seqs.Map)
      → Finds m.seqs
      → Coherent d.vol
      → fid ≢ 0
      → Known d.vol fid e ids
      → OnVolume d.vol ids
      → 1 ≤ length (file_blocks d.vol fid ids)
      → m.seqs.look d.map_seq (decimal fid) ≡ none
      → m.seqs.put d.map_seq (decimal fid) (length d.lists) ≡ some t
      → (l : List BlkInfo) × (d1 : Driver m) × (l ≡ first_two (file_blocks d.vol fid ids))
        × (get_file_seq m fid d ≡ ok (length d.lists, length l) d1)
        × (get_file_seq m fid d1 ≡ ok (length d.lists, length l) d1)
        × (d1 ≡ record d {
          vol = at (with_cache d.vol d1.vol.clrs_cache) d1.vol.dev.pos;
          lists = d.lists ++ some l ∷ [];
          map_seq = t;
        })
  get_file_seq-get_file_seq d e ids t finds co file known on some_block absent put =
      let l : List BlkInfo = first_two (file_blocks d.vol fid ids) in
      let (v, read, rest) = read_seq-file_blocks d.vol fid e ids co file known on some_block in
      let d1 : Driver m = record d { vol = v; lists = d.lists ++ some l ∷ []; map_seq = t } in
      (
        l,
        d1,
        refl,
        miss d l v t absent read put,
        hit d1 (length d.lists) l (finds d.map_seq t (decimal fid) (length d.lists) put)
            (get_elem?-last d.lists (some l)),
        ap (λ x. record d { vol = x; lists = d.lists ++ some l ∷ []; map_seq = t }) rest,
      )
