-- ===== src/Scsi/Capacity.antt =====
-- The capacity in the answer of the drive is big-endian.
use fcfs.Base.{ℕ, ◌+◌, ◌*◌, ◌≡◌, List, [], ◌∷◌, arith}
use fcfs.Scsi.{get_disc_info}

abbrev pub from_be : List ℕ → ℕ → ℕ
from_be [] n = n
from_be (b ∷ bs) n = from_be bs (n * 256 + b)

-- get_disc_info reads the count of sectors from the first four bytes of the answer and their size
-- from the next four, most significant byte first, whatever follows.
pub get_disc_info-capacity :
    (inqr info rest : List ℕ) (a b c d e f g h : ℕ)
    → let i = get_disc_info inqr info (a ∷ b ∷ c ∷ d ∷ e ∷ f ∷ g ∷ h ∷ rest) in
      (i.sec_cnt ≡ from_be (a ∷ b ∷ c ∷ d ∷ []) 0) × (i.sec_sz ≡ from_be (e ∷ f ∷ g ∷ h ∷ []) 0)
unfolding get_disc_info
get_disc_info-capacity inqr info rest a b c d e f g h = omega arith
