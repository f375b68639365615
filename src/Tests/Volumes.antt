-- ===== src/Tests/Volumes.antt =====
-- Blocks, tables and owners of the small volume.
use fcfs.Base.{ℕ, ◌+◌, ◌-◌, ◌<◌, ◌≡◌, refl, some, [], ◌∷◌, arith, map, replicate, inr}
use fcfs.Base.Monad.{ok}
use fcfs.Base.Words.{minus_one}
use fcfs.Structs.{BlockList}
use fcfs.Volume.{Volume, lblk_sz}
use fcfs.Device.{need_crypt, at, block_pos, bytes_at, blocks_from, get_blocks, write_block}
use fcfs.Device.Blocks.{Written, InVolume, crypted, raw, filled, write_block_lem}
use fcfs.Layout.{IsVolume-InVolume}
use fcfs.Ctable.{no_owners, read_ctable, write_ctable, decode, get_hashsum, sum_fids}
use fcfs.Ctable.View.{table_of}
use fcfs.Ctable.Roundtrip.{Recorded, write_ctable_lem}
use fcfs.Ctable.Total.{Trusted, read_ctable-Trusted}
use fcfs.Clusters.Coherent.{Coherent}
use fcfs.Clrs.{clrs_cnt}
use fcfs.File.{del_block}
use fcfs.File.Owner.{IsLink, Reserved}
use fcfs.File.Release.{del_block_lem}
use fcfs.Seq.{find_num, write_by_id, read_by_id}
use fcfs.Seq.ById.{write_by_id-read_by_id}
use fcfs.Tests.Drive.{blank, link, other_link, shifting-IsCipher, blank-IsVolume, blank-Coherent}

link-IsLink : IsLink blank link
link-IsLink = record { cluster = omega arith; first = omega arith; last = omega arith }

other_link-IsLink : IsLink blank other_link
other_link-IsLink = record { cluster = omega arith; first = omega arith; last = omega arith }

IsVolume-InVolume_example : InVolume blank 1 7
IsVolume-InVolume_example = IsVolume-InVolume blank 1 7 blank-IsVolume (omega arith) (omega arith)

write_block_lem_example :
    (w : Volume) × (write_block 1 2 (7 ∷ 8 ∷ []) 2 need_crypt blank ≡ ok minus_one w)
    × Written blank 1 2 need_crypt (filled blank (7 ∷ 8 ∷ []) 2) w
write_block_lem_example =
    write_block_lem blank 1 2
      (IsVolume-InVolume blank 1 2 blank-IsVolume (omega arith) (omega arith)) (omega arith)
      (7 ∷ 8 ∷ []) 2 need_crypt (λ e. shifting-IsCipher 64) (omega arith) (omega arith)

write_ctable_lem_example :
    (w : Volume) × (write_ctable 1 no_owners blank ≡ ok 0 w) × Recorded blank 1 no_owners w
write_ctable_lem_example =
    write_ctable_lem blank 1 no_owners
      (IsVolume-InVolume blank 1 0 blank-IsVolume (omega arith) (omega arith)) (omega arith)
      (record { count = refl; fits = omega arith })

read_ctable-Trusted_example :
    (bl : BlockList) × (read_ctable 1 blank
      ≡ ok bl (at blank (block_pos blank 1 0 + lblk_sz blank)))
    × Trusted blank bl
read_ctable-Trusted_example =
    read_ctable-Trusted blank 1
      (IsVolume-InVolume blank 1 0 blank-IsVolume (omega arith) (omega arith)) (omega arith)
      (λ a. omega arith)

del_block_lem_example :
    (res : ℕ) × (w : Volume) × (del_block 1 1 2 blank ≡ ok res w)
    × Coherent w
    × Reserved blank 0 0 link w
unfolding clrs_cnt get_blocks blocks_from table_of decode get_hashsum sum_fids bytes_at
del_block_lem_example = del_block_lem blank blank 1 1 link refl blank-Coherent link-IsLink refl

write_by_id-read_by_id_example :
    (w : Volume) × (write_by_id 0 (replicate 64 9) (link ∷ other_link ∷ []) 2 blank ≡ ok 0 w)
    × (read_by_id 0 (link ∷ other_link ∷ []) 2 w
        ≡ ok (some (replicate 64 9)) (at w (block_pos w 1 2 + lblk_sz w)))
    × (read_by_id 1 (link ∷ other_link ∷ []) 2 w
        ≡ ok (some (map (λ b. b - 1) (raw blank 1 7))) (at w (block_pos w 1 7 + lblk_sz w)))
unfolding find_num
write_by_id-read_by_id_example =
    write_by_id-read_by_id blank 2 (link ∷ other_link ∷ []) 0 1 link other_link (replicate 64 9)
      (map (λ b. b - 1) (raw blank 1 7))
      (record { found = refl; block = in_volume 2 (omega arith); small = omega arith })
      (shifting-IsCipher 64) refl
      (record { found = refl; block = in_volume 7 (omega arith); small = omega arith })
      (inr (omega arith)) (crypted refl)
  where
    in_volume : (bid : ℕ) → bid < 8 → InVolume blank 1 bid
    in_volume bid small = IsVolume-InVolume blank 1 bid blank-IsVolume (omega arith) small
