-- ===== src/Tests/Files.antt =====
-- An open file of two blocks on the small volume: the caches are association lists, and the list of
-- file 1 is in the cache.
use fcfs.Base.{
  ℕ, ◌≤◌, zero, suc, ◌+◌, ◌*◌, ◌<◌, ◌≡◌, ◌≢◌, ◌⊎◌, inr, refl, Bool, true, false, Option, none, some,
  List, [], ◌∷◌, ap, arith, ◌==◌, ◌&&◌, map, ==_refl, if◌then◌else◌,
}
use fcfs.Base.Monad.{ok, fault}
use fcfs.Structs.{BlkInfo}
use fcfs.Utils.{Text}
use fcfs.Volume.{Volume, lblk_sz}
use fcfs.Layout.{IsVolume-InVolume}
use fcfs.Device.{bytes_at}
use fcfs.Device.Blocks.{Holds, crypted}
use fcfs.Device.{need_crypt, at}
use fcfs.Seq.{find_num}
use fcfs.Seq.ById.{Placed}
use fcfs.Cache.{HashMap, Maps, Driver, decimal}
use fcfs.Transfer.{ops_read, write_file}
use fcfs.Transfer.Contents.{blocks_of}
use fcfs.Transfer.Open.{IsOpen, size_of}
use fcfs.Transfer.Loops.{over}
use fcfs.Transfer.PastEnd.{ops_read_past_end}
use fcfs.Transfer.Reads.{available, ops_read-IsOpen}
use fcfs.Transfer.Writes.{written, write_file-IsOpen}
use fcfs.Transfer.Roundtrip.{size_of-written, write_file-ops_read}
use fcfs.Tests.Drive.{blank, shifting-IsCipher, blank-IsVolume, link, other_link}

pub same_text : Text → Text → Bool
same_text [] [] = true
same_text [] (b ∷ t) = false
same_text (a ∷ s) [] = false
same_text (a ∷ s) (b ∷ t) = (a == b) && same_text s t

unfoldable pub look_up : {V : Type 0} → List (Text × V) → Text → Option V
look_up [] k = none
look_up ((k', v) ∷ l) k = if same_text k k' then some v else look_up l k

pub remove_key : {V : Type 0} → List (Text × V) → Text → List (Text × V)
remove_key [] k = []
remove_key (e ∷ l) k = let rest = remove_key l k in if same_text k (e.0) then rest else e ∷ rest

pub same_text_refl : (t : Text) → same_text t t ≡ true
unfolding same_text
same_text_refl [] = refl
same_text_refl (b ∷ t) = rw (==_refl b) (same_text_refl t)

abbrev pub assoc : (V : Type 0) → HashMap V
assoc V = record {
  Map = List (Text × V);
  new = [];
  look = look_up;
  put = λ l k v. some ((k, v) ∷ l);
  remove = remove_key;
  clear = λ l. [];
  items = λ l. map (λ e. e.1) l;
}

abbrev pub maps : Maps
maps = record { seqs = assoc ℕ; stats = assoc _ }

abbrev pub mounted_driver : Driver maps
mounted_driver = record {
  vol = blank;
  lists = some (link ∷ other_link ∷ []) ∷ [];
  map_seq = (decimal 1, 0) ∷ [];
  map_fid = [];
}

block_at : ℕ → BlkInfo
block_at zero = link
block_at (suc i) = other_link

block_at-Placed : (i : ℕ) → i < 2 → Placed blank 2 (link ∷ other_link ∷ []) i (block_at i)
unfolding block_at find_num
block_at-Placed zero lt = record {
  found = refl;
  block = IsVolume-InVolume blank 1 2 blank-IsVolume (omega arith) (omega arith);
  small = omega arith;
}
block_at-Placed (suc zero) lt = record {
  found = refl;
  block = IsVolume-InVolume blank 1 7 blank-IsVolume (omega arith) (omega arith);
  small = omega arith;
}
block_at-Placed (suc (suc i)) lt = absurd (omega arith)

block_at_apart :
    (i j : ℕ)
    → i < 2
    → j < 2
    → i ≢ j
    → ((block_at i).cid ≢ (block_at j).cid) ⊎ ((block_at i).bid ≢ (block_at j).bid)
unfolding block_at
block_at_apart zero zero a b ne = absurd (ne refl)
block_at_apart zero (suc j) a b ne = inr (omega arith)
block_at_apart (suc i) zero a b ne = inr (omega arith)
block_at_apart (suc i) (suc j) a b ne = absurd (ne (omega arith))

block_at-Holds :
    (i : ℕ)
    → i < 2
    → Holds blank (block_at i).cid (block_at i).bid need_crypt (blocks_of 64 (λ a. 0) i)
unfolding bytes_at block_at
block_at-Holds zero lt = crypted refl
block_at-Holds (suc zero) lt = crypted refl
block_at-Holds (suc (suc i)) lt = absurd (omega arith)

pub open_file : IsOpen maps mounted_driver 1 0 2 (link ∷ other_link ∷ []) (λ a. 0)
unfolding look_up
open_file = record {
  cached = rw (same_text_refl (decimal 1)) refl;
  list = refl;
  contents = record {
    blk = block_at;
    placed = block_at-Placed;
    apart = block_at_apart;
    holds = block_at-Holds;
  };
  cipher = shifting-IsCipher 64;
  some_block = omega arith;
  all_blocks = omega arith;
  header = omega arith;
  addressed = omega arith;
  list_short = omega arith;
}

-- Three bytes, the last one in the second block.
write_file-IsOpen_example :
    (w : Volume) × (write_file maps 0 1 (7 ∷ 8 ∷ 9 ∷ []) 58 mounted_driver
      ≡ ok 3 (over mounted_driver w))
    × (w ≡ record blank { dev = w.dev })
    × IsOpen maps
        (over mounted_driver w)
        1
        0
        2
        (link ∷ other_link ∷ [])
        (written (λ a. 0) (7 ∷ 8 ∷ 9 ∷ []) 58)
unfolding bytes_at
write_file-IsOpen_example =
    write_file-IsOpen maps 1 0 2 (link ∷ other_link ∷ []) (λ a. 0) 0 mounted_driver (7 ∷ 8 ∷ 9 ∷ [])
      58 open_file (omega arith) (omega arith)

write_file-ops_read_example :
    (d1 : Driver maps) × (d2 : Driver maps) × (write_file maps 0 1
        (7 ∷ 8 ∷ 9 ∷ [])
        58
        mounted_driver
      ≡ ok 3 d1)
    × (ops_read maps 1 3 58 d1 ≡ ok (3, 7 ∷ 8 ∷ 9 ∷ []) d2)
unfolding bytes_at
write_file-ops_read_example =
    write_file-ops_read maps 0 1 0 2 (link ∷ other_link ∷ []) (λ a. 0) mounted_driver
      (7 ∷ 8 ∷ 9 ∷ []) 58 open_file (omega arith) (omega arith)

-- The file after these three bytes.
abbrev three_bytes : ℕ → ℕ
three_bytes = written (λ a. 0) (7 ∷ 8 ∷ 9 ∷ []) 58

file_with_three :
    (w : Volume) × (write_file maps 0 1 (7 ∷ 8 ∷ 9 ∷ []) 58 mounted_driver
      ≡ ok 3 (over mounted_driver w))
    × (w ≡ record blank { dev = w.dev })
    × IsOpen maps (over mounted_driver w) 1 0 2 (link ∷ other_link ∷ []) three_bytes
unfolding bytes_at
file_with_three =
    write_file-IsOpen maps 1 0 2 (link ∷ other_link ∷ []) (λ a. 0) 0 mounted_driver (7 ∷ 8 ∷ 9 ∷ [])
      58 open_file (omega arith) (omega arith)

length_of_three : size_of three_bytes ≡ 61
unfolding bytes_at
length_of_three = size_of-written (λ a. 0) (7 ∷ 8 ∷ 9 ∷ []) 58 (omega arith)

-- A read of ten bytes there is cut to three.
ops_read-IsOpen_example :
    (p : ℕ) × (ops_read maps 1 10 58 (over mounted_driver file_with_three.0)
      ≡ ok
          (
            available (size_of three_bytes) 10 58,
            bytes_at three_bytes 62 (available (size_of three_bytes) 10 58),
          )
          (over mounted_driver (at file_with_three.0 p)))
ops_read-IsOpen_example =
    ops_read-IsOpen maps 1 0 2 (link ∷ other_link ∷ []) three_bytes
      (over mounted_driver file_with_three.0) 10 58 file_with_three.3 fits
      (omega (arith, length_of_three)) (omega arith)
  where
    fits : 4 + size_of three_bytes ≤ 2 * lblk_sz file_with_three.0
    fits = rw (ap (λ v. lblk_sz v) file_with_three.2) (omega (arith, length_of_three))

-- The file is empty.
ops_read_past_end_example : ops_read maps 1 5 10 mounted_driver ≡ fault
unfolding bytes_at
ops_read_past_end_example =
    ops_read_past_end maps 1 0 2 (link ∷ other_link ∷ []) (λ a. 0) mounted_driver 5 10 open_file
      (omega arith) (omega arith) (omega arith)
