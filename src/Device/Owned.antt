-- ===== src/Device/Owned.antt =====
-- dev_get_blocks: which block numbers the list holds.
use fcfs.Base.{
  ℕ, zero, suc, ◌+◌, ◌≤◌, ◌≡◌, refl, ap, sym, ◌∙◌, Bool, true, false, List, [], ◌∷◌, arith, ◌==◌,
  if◌then◌else◌,
}
use fcfs.Structs.{BlockListEntry}
use fcfs.Device.{blocks_from, get_blocks}

abbrev pub member : ℕ → List ℕ → Bool
member b [] = false
member b (x ∷ xs) = if b == x then true else member b xs

-- Whether entry `k` of a table belongs to a file.
abbrev pub owns : List BlockListEntry → ℕ → ℕ → Bool
owns [] k fid = false
owns (e ∷ es) zero fid = fid == e.fid
owns (e ∷ es) (suc k) fid = owns es k fid

member_below :
    (es : List BlockListEntry) (i b fid : ℕ) → b ≤ i → member b (blocks_from i es fid) ≡ false
unfolding blocks_from
member_below [] i b fid h = refl
member_below (e ∷ es) i b fid h = ground (arith, member_below es (i + 1) b fid)

member_from :
    (es : List BlockListEntry) (i k fid : ℕ)
    → member (i + 1 + k) (blocks_from i es fid) ≡ owns es k fid
unfolding blocks_from
member_from [] i k fid = refl
member_from (e ∷ es) i zero fid = ground (arith, member_below es (i + 1) (i + 1 + 0) fid)
member_from (e ∷ es) i (suc k) fid =
    let shift : i + 1 + 1 + k ≡ i + 1 + suc k = omega arith in
    let later : member (i + 1 + suc k) (blocks_from (i + 1) es fid) ≡ owns es k fid =
      ap (λ b. member b (blocks_from (i + 1) es fid)) (sym shift) ∙ member_from es (i + 1) k fid in
    ground (arith, later)

-- dev_get_blocks returns the number of a block exactly when the block's entry belongs to the file,
-- and never the number 0 of the table itself.
pub get_blocks_lem :
    (entrs : List BlockListEntry) (fid k : ℕ)
    → (member (k + 1) (get_blocks entrs fid) ≡ owns entrs k fid)
      × (member 0 (get_blocks entrs fid) ≡ false)
unfolding get_blocks
get_blocks_lem entrs fid k = (
  ap (λ b. member b (blocks_from 0 entrs fid)) {x = k + 1} {y = 0 + 1 + k} (omega arith)
      ∙ member_from entrs 0 k fid,
  member_below entrs 0 0 fid (omega arith),
)
