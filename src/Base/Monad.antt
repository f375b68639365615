-- ===== src/Base/Monad.antt =====
-- Commands over a state, with the ways in which a call of the driver can end.
use mathlib.Core.Option.{Option, none, some}

-- `died` is `exit(-1)`; `fault` is undefined behaviour (a null pointer, an index out of range, a
-- signed overflow); `out_of_fuel` is a loop that has not ended within its rounds.
pub data Run (S A : Type 0) : Type 0 where
  ok : A → S → Run S A
  died fault out_of_fuel : Run S A

abbrev pub Cmd : Type 0 → Type 0 → Type 0
Cmd S A = S → Run S A

module _ {S : Type 0} where
  abbrev pub pure : {A : Type 0} → A → Cmd S A
  pure a s = ok a s

  abbrev pub and_then : {A B : Type 0} → Run S A → (A → Cmd S B) → Run S B
  and_then (ok a s) k = k a s
  and_then died k = died
  and_then fault k = fault
  and_then out_of_fuel k = out_of_fuel

  infixl 5 ◌>>=◌ ◌>>◌
  abbrev pub ◌>>=◌ : {A B : Type 0} → Cmd S A → (A → Cmd S B) → Cmd S B
  m >>= k = λ s. and_then (m s) k

  abbrev pub ◌>>◌ : {A B : Type 0} → Cmd S A → Cmd S B → Cmd S B
  m >> n = m >>= λ _. n

  abbrev pub get : Cmd S S
  get s = ok s s

  abbrev pub modify : (S → S) → Cmd S (Unit {0})
  modify f s = ok tt (f s)

  -- A value that is missing is undefined behaviour.
  abbrev pub need : {A : Type 0} → Option A → Cmd S A
  need none s = fault
  need (some a) s = ok a s
