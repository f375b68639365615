-- ===== src/Tests/Caching.antt =====
-- The list of blocks of a file of the small volume, read once.
use fcfs.Base.{
  ℕ, zero, suc, ◌<◌, ◌≡◌, refl, arith, none, some, List, [], ◌∷◌, ◌==◌, if◌then◌else◌, ap, subst,
  not, replicate, length, get_elem?,
}
use fcfs.Base.Monad.{ok}
use fcfs.Structs.{BlkInfo, TableEntry}
use fcfs.Volume.{Volume}
use fcfs.Cache.{Driver, decimal}
use fcfs.Bitmap.{has_free, mask_bit}
use fcfs.Bitmap.Update.{used}
use fcfs.Clrs.{with_cache}
use fcfs.Clrs.Known.{Known, warm}
use fcfs.Clusters.Coherent.{Coherent, owners}
use fcfs.Ctable.{decode, get_hashsum, sum_fids}
use fcfs.Ctable.Roundtrip.{IsBlockList}
use fcfs.Ctable.View.{table_of}
use fcfs.Device.{at, bytes_at}
use fcfs.Layout.{IsVolume-kept}
use fcfs.Seq.Sort.{first_two}
use fcfs.FileSeq.{get_file_seq}
use fcfs.FileSeq.Cached.{Finds, get_file_seq-get_file_seq}
use fcfs.Tests.Drive.{blank, blank-IsVolume}
use fcfs.Tests.Files.{maps, look_up, same_text_refl}

-- In cluster 1, whose table of owners starts at 768, file 1 has block 1 as its second one and block 2
-- as its first one. The checksum is the sum of the owners, changed by the time 5 of the head.
abbrev owned_byte : ℕ → ℕ
owned_byte a =
    if a == 768
    then 7
    else if a == 776
    then 1
    else if a == 780
    then 1
    else if a == 784
    then 1
    else 0

abbrev owned : Volume
owned = record blank { dev = record { byte = owned_byte; size = 1280; pos = 0 } }

owned-Coherent : Coherent owned
unfolding used mask_bit has_free table_of decode get_hashsum sum_fids bytes_at
owned-Coherent = record {
  volume = IsVolume-kept blank owned refl refl refl blank-IsVolume.flag_bytes blank-IsVolume;
  tables = λ c lt. owned_tables c lt;
  flags = owned_flags;
}
  where
    owned_flags : (c : ℕ) → c < 2 → used (0 ∷ []) c ≡ not (has_free (table_of owned c).entrs)
    owned_flags zero lt = refl
    owned_flags (suc zero) lt = refl
    owned_flags (suc (suc c)) lt = absurd (omega arith)

    owned_tables : (c : ℕ) → c < 2 → IsBlockList (owners owned c)
    owned_tables zero lt = record { count = refl; fits = omega arith }
    owned_tables (suc zero) lt = record { count = refl; fits = omega arith }
    owned_tables (suc (suc c)) lt = absurd (omega arith)

abbrev one_cluster : TableEntry
one_cluster = record { lnk_cnt = 1; clrs = 1 ∷ replicate 15 0 }

owned_addrs :
    (i a : ℕ) → get_elem? (1 ∷ []) i ≡ some a → get_elem? owned.clrs_cache.s0_cl i ≡ some a
owned_addrs zero a h = h
owned_addrs (suc i) a h = absurd (ground (arith, h))

owned-Known : Known owned 1 one_cluster (1 ∷ [])
owned-Known = warm (record {
  cached = record {
    file = refl;
    count = refl;
    few = omega arith;
    space = omega arith;
    second = refl;
    addrs = owned_addrs;
  };
  some_id = omega arith;
  at_fid = refl;
  no_second = refl;
})

abbrev cold_driver : Driver maps
cold_driver = record { vol = owned; lists = []; map_seq = []; map_fid = [] }

some-injective : {A : Type 0} {x y : A} → some x ≡ some y → x ≡ y
some-injective {A} {x} e = ap (λ o. elim o [ none ↦ x | some z ↦ z ]) e

assoc-Finds : Finds maps.seqs
unfolding look_up
assoc-Finds t t' k v put =
    subst (λ x. look_up x k ≡ some v) (some-injective put) (rw (same_text_refl k) refl)

-- The list in the order of the numbers.
abbrev owned_list : List BlkInfo
owned_list = record { cid = 1; bid = 2; num = 0 } ∷ record { cid = 1; bid = 1; num = 1 } ∷ []

get_file_seq-get_file_seq_example :
    (l : List BlkInfo) × (d1 : Driver maps) × (l ≡ owned_list)
    × (get_file_seq maps 1 cold_driver ≡ ok (0, length l) d1)
    × (get_file_seq maps 1 d1 ≡ ok (0, length l) d1)
    × (d1 ≡ record cold_driver {
      vol = at (with_cache owned d1.vol.clrs_cache) d1.vol.dev.pos;
      lists = some l ∷ [];
      map_seq = (decimal 1, 0) ∷ [];
    })
unfolding look_up table_of decode get_hashsum sum_fids bytes_at first_two
get_file_seq-get_file_seq_example =
    get_file_seq-get_file_seq maps 1 cold_driver one_cluster (1 ∷ []) _ assoc-Finds owned-Coherent
      (λ e. omega (arith, e)) owned-Known ((λ e. omega (arith, e), omega arith), tt) (omega arith)
      refl refl
