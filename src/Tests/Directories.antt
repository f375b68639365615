-- ===== src/Tests/Directories.antt =====
-- Directories at concrete inputs: one in the two blocks of the small volume, and one with two entries
-- in a single block of a kilobyte.
use fcfs.Base.{
  ℕ, zero, suc, ◌+◌, ◌*◌, ◌<◌, ◌≡◌, ◌≢◌, ◌⊎◌, refl, some, List, [], ◌∷◌, All, arith, replicate,
}
use fcfs.Base.Monad.{ok}
use fcfs.Base.Words.{minus_one}
use fcfs.Layout.{IsVolume-InVolume, IsVolume-kept}
use fcfs.Device.{need_crypt, at, bytes_at}
use fcfs.Device.Blocks.{Holds, crypted}
use fcfs.Utils.{to_blk_cnt}
use fcfs.Seq.{find_num}
use fcfs.Seq.ById.{Placed}
use fcfs.Cache.{Driver, decimal}
use fcfs.Dir.{DirEntry, write_dir, read_dir, rm_from_dir, dir_of, decode_dir}
use fcfs.Dir.Codec.{IsDirEntry, read_back}
use fcfs.Dir.Remove.{Removed}
use fcfs.Dir.Roundtrip.{write_dir-read_dir, rm_from_dir-read_dir}
use fcfs.Transfer.Contents.{blocks_of}
use fcfs.Transfer.Open.{IsOpen}
use fcfs.Transfer.Loops.{over}
use fcfs.Tests.Drive.{link, other_link}
use fcfs.Tests.Files.{maps, mounted_driver, open_file, look_up, same_text_refl}
use fcfs.Tests.Mounting.{big, byte_of, keeping-IsCipher, big-IsVolume}

-- an entry for a file with the name "a", "b", ...
abbrev entry_of : ℕ → ℕ → DirEntry
entry_of fid letter = record {
  fid = fid;
  mode = 33188;
  ctime = 5;
  atime = 0;
  mtime = 0;
  name = letter ∷ replicate 31 0;
}

entry_of-IsDirEntry : (fid letter : ℕ) → fid < 256 → IsDirEntry (entry_of fid letter)
entry_of-IsDirEntry fid letter small = record {
  fid = omega arith;
  mode = omega arith;
  ctime = omega arith;
  atime = omega arith;
  mtime = omega arith;
  name = refl;
}

write_dir-read_dir_example :
    (d1 : Driver maps) × (d2 : Driver maps) × (write_dir maps 0 1
        (entry_of 5 97 ∷ [])
        mounted_driver
      ≡ ok 0 d1)
    × (read_dir maps 1 d1 ≡ ok (some (entry_of 5 97 ∷ [])) d2)
unfolding to_blk_cnt
write_dir-read_dir_example =
    write_dir-read_dir maps 0 1 0 (link ∷ other_link ∷ []) (λ a. 0) mounted_driver
      (entry_of 5 97 ∷ []) open_file (entry_of-IsDirEntry 5 97 (omega arith), tt) refl

abbrev two_entries : List DirEntry
two_entries = entry_of 5 97 ∷ entry_of 7 98 ∷ []

-- The bytes of these entries, behind the header, from address 2242560 on.
abbrev dir_bytes : List (ℕ × ℕ)
dir_bytes =
    (2242560, 128)
    ∷ (2242564, 5)
    ∷ (2242568, 164)
    ∷ (2242569, 129)
    ∷ (2242572, 5)
    ∷ (2242596, 97)
    ∷ (2242628, 7)
    ∷ (2242632, 164)
    ∷ (2242633, 129)
    ∷ (2242636, 5)
    ∷ (2242660, 98)
    ∷ []

abbrev dir_driver : Driver maps
dir_driver = record {
  vol = record big { dev = record { byte = byte_of dir_bytes; size = 2297856; pos = 0 } };
  lists = some (link ∷ []) ∷ [];
  map_seq = (decimal 1, 0) ∷ [];
  map_fid = [];
}

abbrev dir_contents : ℕ → ℕ
dir_contents a = byte_of dir_bytes (2242560 + a)

contents_held : Holds dir_driver.vol 1 2 need_crypt (blocks_of 1024 dir_contents 0)
unfolding bytes_at byte_of
contents_held = crypted refl

open_dir : IsOpen maps dir_driver 1 0 1 (link ∷ []) dir_contents
unfolding look_up find_num
open_dir = record {
  cached = rw (same_text_refl (decimal 1)) refl;
  list = refl;
  contents = record { blk = λ i. link; placed = one_placed; apart = one_apart; holds = one_held };
  cipher = keeping-IsCipher 1024;
  some_block = omega arith;
  all_blocks = omega arith;
  header = omega arith;
  addressed = omega arith;
  list_short = omega arith;
}
  where
    one_placed : (i : ℕ) → i < 1 → Placed dir_driver.vol 1 (link ∷ []) i link
    one_placed zero lt = record {
      found = refl;
      block =
          IsVolume-InVolume dir_driver.vol 1 2
            (IsVolume-kept big dir_driver.vol refl refl refl big-IsVolume.flag_bytes big-IsVolume)
            (omega arith) (omega arith);
      small = omega arith;
    }
    one_placed (suc i) lt = absurd (omega arith)

    one_apart : (i j : ℕ) → i < 1 → j < 1 → i ≢ j → (link.cid ≢ link.cid) ⊎ (link.bid ≢ link.bid)
    one_apart i j a b ne = absurd (ne (omega arith))

    one_held : (i : ℕ) → i < 1 → Holds dir_driver.vol 1 2 need_crypt (blocks_of 1024 dir_contents i)
    one_held zero lt = contents_held
    one_held (suc i) lt = absurd (omega arith)

entries_held : dir_of (bytes_at dir_contents (0 * 1024) (1 * 1024)) ≡ some (some two_entries)
unfolding bytes_at byte_of dir_of decode_dir
entries_held = refl

rm_from_dir-read_dir_example :
    ((p : ℕ) × (rm_from_dir maps 0 1 5 dir_driver
        ≡ ok minus_one (over dir_driver (at dir_driver.vol p)))
      × All (λ e. e.fid ≢ 5) two_entries)
    ⊎ ((r : List DirEntry) × (d1 : Driver maps) × (d2 : Driver maps) × (rm_from_dir maps 0 1 5
            dir_driver
          ≡ ok 0 d1)
        × (read_dir maps 1 d1 ≡ ok (read_back r) d2)
        × Removed two_entries 5 r)
unfolding to_blk_cnt
rm_from_dir-read_dir_example =
    rm_from_dir-read_dir maps 0 1 0 5 (link ∷ []) dir_contents dir_driver two_entries open_dir
      entries_held
      (entry_of-IsDirEntry 5 97 (omega arith), (entry_of-IsDirEntry 7 98 (omega arith), tt)) refl
