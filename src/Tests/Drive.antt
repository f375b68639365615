-- ===== src/Tests/Drive.antt =====
-- A small volume: two clusters of blocks of 64 bytes, all of them zero, and a cipher that adds 1 to
-- each byte. The cache knows that file 1 has cluster 1.
use fcfs.Base.{
  ℕ, zero, suc, ◌+◌, not, ap, ap₂, sym, none, ◌∙◌, ◌-◌, ◌<◌, ◌≡◌, refl, some, List, [], ◌∷◌, arith,
  map, replicate, length,
}
use fcfs.Structs.{Head, BlkInfo}
use fcfs.Volume.{Cipher, IsCipher, Volume}
use fcfs.Device.{bytes_at}
use fcfs.Layout.{IsVolume}
use fcfs.Bitmap.{has_free, mask_bit}
use fcfs.Bitmap.Update.{used}
use fcfs.Ctable.{sum_fids, get_hashsum, decode}
use fcfs.Ctable.View.{table_of}
use fcfs.Clusters.Coherent.{Coherent}

abbrev pub head : Head
head = record {
  fsid = 1;
  ctime = 5;
  atime = 5;
  tbl_cnt = 3;
  tbl_len = 2;
  bmp_len = 1;
  clu_sz = 512;
  clu_cnt = 2;
  blk_sz = 2;
  blk_cnt = 20;
  phy_blk_sz = 32;
  phy_blk_cnt = 40;
  dta_beg = 4;
  hashsum = 0;
}

abbrev pub shifting : Cipher
shifting = record {
  encrypt = λ bs. some (map (λ b. b + 1) bs);
  decrypt = λ bs. some (map (λ b. b - 1) bs);
}

length-map : (f : ℕ → ℕ) (bs : List ℕ) → length (map f bs) ≡ length bs
length-map f [] = refl
length-map f (b ∷ bs) = omega (arith, length-map f bs)

shift_back : (bs : List ℕ) → map (λ b. b - 1) (map (λ b. b + 1) bs) ≡ bs
shift_back [] = refl
shift_back (b ∷ bs) = ap₂ ◌∷◌ {x = b + 1 - 1} (omega arith) (shift_back bs)

pub some-injective : {xs ys : List ℕ} → some xs ≡ some ys → xs ≡ ys
some-injective {xs} e = ap (λ o. elim o [ none ↦ xs | some zs ↦ zs ]) e

pub shifting-IsCipher : (n : ℕ) → IsCipher n shifting
shifting-IsCipher n = record {
  total = λ bs e. (map (λ b. b + 1) bs, refl);
  same_length =
      λ bs cs e enc. ap length (some-injective (sym enc)) ∙ length-map (λ b. b + 1) bs ∙ e;
  undone = λ bs cs e enc. ap shifting.decrypt (some-injective (sym enc)) ∙ ap some (shift_back bs);
}

abbrev pub blank : Volume
blank = record {
  dev = record { byte = λ a. 0; size = 1280; pos = 0 };
  ciph = shifting;
  fs_head = head;
  fs_bitmap = 0 ∷ [];
  fs_table = record {
    hashsum = 0;
    entrs =
        record { lnk_cnt = 1; clrs = replicate 16 0 }
        ∷ record { lnk_cnt = 1; clrs = 1 ∷ replicate 15 0 }
        ∷ record { lnk_cnt = 0; clrs = replicate 16 0 }
        ∷ [];
  };
  clrs_cache = record { fid = 1; s0_cl = 1 ∷ replicate 12 0; s0_cnt = 1; s1_cl = []; s1_cnt = 0 };
}

abbrev pub link : BlkInfo
link = record { cid = 1; bid = 2; num = 0 }

abbrev pub other_link : BlkInfo
other_link = record { cid = 1; bid = 7; num = 1 }

pub blank-IsVolume : IsVolume blank
blank-IsVolume = record {
  fits = omega arith;
  flags = omega arith;
  flag_bytes = (omega arith, tt);
  flag_region = omega arith;
  before_data = omega arith;
  on_device = omega arith;
  addressed = omega arith;
}

pub blank-Coherent : Coherent blank
unfolding used mask_bit has_free table_of decode get_hashsum sum_fids bytes_at
blank-Coherent = record {
  volume = blank-IsVolume;
  tables = λ c lt. record { count = refl; fits = omega arith };
  flags = blank_flags;
}
  where
    blank_flags : (c : ℕ) → c < 2 → used (0 ∷ []) c ≡ not (has_free (table_of blank c).entrs)
    blank_flags zero lt = refl
    blank_flags (suc zero) lt = refl
    blank_flags (suc (suc c)) lt = absurd (omega arith)
