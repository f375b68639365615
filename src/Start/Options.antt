-- ===== src/Start/Options.antt =====
-- What the options and the password make of the cipher, in the driver and in the formatter.
use fcfs.Base.{
  Bool, ℕ, ◌<◌, ◌≡◌, ◌≢◌, refl, ◌∙◌, true, false, some, none, List, [], ◌∷◌, ◌++◌, All, arith, ltb,
  ◌==◌, if◌then◌else◌, length, take, drop, lt→ltb, le→ltb,
}
use fcfs.Base.Monad.{ok, fault, pure, and_then}
use fcfs.Utils.{Text}
use fcfs.Volume.{Cipher}
use fcfs.Start.{
  Gcrypt, md_len, open_ciph, behind_equals, get_opt, opt_passwd, opt_dev, fcfs_opt_proc, parse_opts,
  Setup, no_setup, set_up,
}

-- A hash has 32 bytes, and its halves open the cipher `c`.
pub record Opens (g : Gcrypt) (pass : Text) (c : Cipher) : Type 0 where
  pub size : length (g.md_hash pass) ≡ md_len
  pub opened :
      g.open_cipher (take 16 (g.md_hash pass)) (take 16 (drop 16 (g.md_hash pass))) ≡ some c

pub open_ciph-Opens :
    {S : Type 0} (g : Gcrypt) (pass : Text) (c : Cipher) (s : S)
    → Opens g pass c
    → open_ciph g (g.md_hash pass) s ≡ ok c s
unfolding open_ciph
open_ciph-Opens g pass c s is =
    rw (le→ltb (length (g.md_hash pass)) md_len (omega (arith, is.size)), is.opened) refl

-- A name of an option, without the sign that ends it.
abbrev pub IsName : Text → Type 0
IsName name = All (λ c. c ≢ b'=') name

behind_equals-none : (name : Text) → IsName name → behind_equals name ≡ none
unfolding behind_equals
behind_equals-none [] h = refl
behind_equals-none (c ∷ name) h =
    let test : (c == b'=') ≡ false = ground (arith, h.0) in rw test (behind_equals-none name h.1)

behind_equals-some :
    (name value : Text) → IsName name → behind_equals (name ++ (b'=' ∷ value)) ≡ some value
unfolding behind_equals
behind_equals-some [] value h = refl
behind_equals-some (c ∷ name) value h =
    let test : (c == b'=') ≡ false = ground (arith, h.0) in
    rw test (behind_equals-some name value h.1)

-- get_opt of an argument with no equals sign is NULL. Of a name, the sign and a value it is the value
-- when the allocator has left a byte behind a buffer of the value's length, and otherwise the
-- terminator is written behind the buffer.
pub get_opt_lem :
    {S : Type 0} (usable : ℕ → ℕ) (name value : Text) (s : S)
    → IsName name
    → (get_opt usable name s ≡ ok none s)
      × (get_opt usable (name ++ (b'=' ∷ value)) s
          ≡ (if ltb (length value) (usable (length value)) then ok (some value) s else fault))
unfolding get_opt
get_opt_lem {S} usable name value s is = (
  rw (behind_equals-none name is) refl,
  rw (behind_equals-some name value is) (copied (ltb (length value) (usable (length value)))),
)
  where
    copied :
        (b : Bool)
        → and_then {S = S} ((if b then pure value else λ _. fault) s) (λ res. pure (some res))
          ≡ (if b then ok (some value) s else fault)
    copied true = refl
    copied false = refl

get_opt_spare :
    {S : Type 0} (usable : ℕ → ℕ) (name value : Text) (s : S)
    → IsName name
    → length value < usable (length value)
    → get_opt usable (name ++ (b'=' ∷ value)) s ≡ ok (some value) s
get_opt_spare usable name value s is spare =
    (get_opt_lem usable name value s is).1 ∙ rw (lt→ltb _ _ spare) refl

-- The setup of a driver that was started with a password and a device.
abbrev pub both_set : Cipher → Text → Setup
both_set c path = record no_setup { ciph = some c; p_dev = some path; need_pass = false }

pub set_up_options :
    (g : Gcrypt) (usable : ℕ → ℕ) (name pass name' path : Text) (c : Cipher) (keys : List ℕ)
    → Opens g pass c
    → IsName name
    → IsName name'
    → length pass < usable (length pass)
    → length path < usable (length path)
    → set_up g usable
        ((opt_passwd, name ++ (b'=' ∷ pass)) ∷ (opt_dev, name' ++ (b'=' ∷ path)) ∷ [])
        keys
        no_setup
      ≡ ok tt (both_set c path)
unfolding set_up parse_opts fcfs_opt_proc
set_up_options g usable name pass name' path c keys is named named' spare spare' =
    let s1 : Setup = record no_setup { ciph = some c; need_pass = false } in
    rw
      (
        get_opt_spare usable name pass no_setup named spare,
        open_ciph-Opens g pass c no_setup is,
        get_opt_spare usable name' path s1 named' spare',
      )
      refl
