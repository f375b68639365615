-- ===== src/Base/Bytes.antt =====
-- Little-endian fields of on-disk structures: the layout that `memcpy` of a C struct gives.
use fcfs.Base.Lists.{All}
use Prim.Native.Nat.{ℕ, zero, suc, ◌+◌, ◌*◌, ◌/◌, ◌%◌, ◌^◌, ◌<◌}
use mathlib.Core.Path.{◌≡◌}
use mathlib.Core.List.{List, [], ◌∷◌}
use native.Mathlib.Nat.{pow-suc}
use native.Mathlib.Omega.{arith}

-- The `k` low bytes of a number, the lowest first.
abbrev pub to_le : ℕ → ℕ → List ℕ
to_le zero n = []
to_le (suc k) n = (n % 256) ∷ to_le k (n / 256)

abbrev pub from_le : List ℕ → ℕ
from_le [] = 0
from_le (b ∷ bs) = b + 256 * from_le bs

pub from_le-to_le : (k n : ℕ) → n < 256 ^ k → from_le (to_le k n) ≡ n
from_le-to_le zero n h = omega arith
from_le-to_le (suc k) n h =
    omega (arith, pow-suc 256 k, from_le-to_le k (n / 256) (omega (arith, pow-suc 256 k)))

abbrev pub IsBytes : List ℕ → Type 0
IsBytes = All (λ b. b < 256)
