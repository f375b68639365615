-- ===== src/Password/Length.antt =====
-- Which passwords the prompt accepts.
use fcfs.Base.{
  ℕ, zero, suc, ◌+◌, ◌-◌, ◌≤◌, ◌<◌, ◌≡◌, refl, ap, ap₂, sym, append-nil, ◌≢◌, ◌∙◌, some, List, [],
  ◌∷◌, ◌++◌, arith, le→leb, All, ◌==◌, set, replicate, length, length-append, append_assoc, false,
}
use fcfs.Base.Words.{u8}
use fcfs.Structs.{min_password_len}
use fcfs.Password.{passwd_buf_len, newline, prompt, c_string, get_passwd}

-- A key that is stored: neither the newline nor the terminator.
abbrev pub IsKey : ℕ → Type 0
IsKey c = (c ≢ newline) × (c ≢ 0)

set-at : (xs rest : List ℕ) (v c : ℕ) → set (xs ++ (v ∷ rest)) (length xs) c ≡ xs ++ (c ∷ rest)
set-at [] rest v c = refl
set-at (x ∷ xs) rest v c = ap (λ l. x ∷ l) (set-at xs rest v c)

key_step :
    (c pos : ℕ) (keys buf : List ℕ)
    → IsKey c
    → pos < 255
    → prompt (c ∷ keys) pos buf ≡ prompt keys (pos + 1) (set buf pos c)
unfolding prompt
key_step c pos keys buf key small =
    let test : (c == newline) ≡ false = ground (arith, key.0) in
    let next : u8 (pos + 1) ≡ pos + 1 = omega arith in rw (test, next)

-- Keys are stored one behind the other.
prompt-keys :
    (pw keys typed : List ℕ) (m n pos : ℕ)
    → All IsKey pw
    → pos ≡ length typed
    → pos + length pw < 256
    → m ≡ length pw + n
    → prompt (pw ++ keys) pos (typed ++ replicate m 0)
      ≡ prompt keys (pos + length pw) ((typed ++ pw) ++ replicate n 0)
prompt-keys [] keys typed m n pos h e small f =
    let same : m ≡ n = omega arith in
    ap₂ (prompt keys) {x = pos} {y = pos + 0} (omega arith) (
      ap (λ k. typed ++ replicate k 0) same ∙ ap (λ l. l ++ replicate n 0) (sym (append-nil typed)))
prompt-keys (c ∷ pw) keys typed zero n pos h e small f = absurd (omega arith)
prompt-keys (c ∷ pw) keys typed (suc m) n pos h e small f =
    key_step c pos (pw ++ keys) (typed ++ (0 ∷ replicate m 0)) h.0 (omega arith)
    ∙ ap (prompt (pw ++ keys) (pos + 1)) stored
    ∙ prompt-keys pw keys (typed ++ (c ∷ [])) m n (pos + 1) h.1
        (omega (arith, length-append typed (c ∷ []))) (omega arith) (omega arith)
    ∙ ap₂ (prompt keys) {x = pos + 1 + length pw} {y = pos + suc (length pw)} (omega arith)
        (ap (λ l. l ++ replicate n 0) (append_assoc typed (c ∷ []) pw))
  where
    stored : set (typed ++ (0 ∷ replicate m 0)) pos c ≡ (typed ++ (c ∷ [])) ++ replicate m 0
    stored =
        rw e (set-at typed (replicate m 0) 0 c ∙ sym (append_assoc typed (c ∷ []) (replicate m 0)))

c_string-keys : (pw : List ℕ) (n : ℕ) → All IsKey pw → c_string (pw ++ replicate n 0) ≡ pw
unfolding c_string
c_string-keys [] zero h = refl
c_string-keys [] (suc n) h = refl
c_string-keys (c ∷ pw) n h = ground (arith, c_string-keys pw n h.1)

-- Newlines typed too early move the position and store nothing.
prompt-newlines :
    (k pos : ℕ) (buf : List ℕ)
    → pos ≤ min_password_len
    → min_password_len < pos + k
    → prompt (replicate k newline) pos buf ≡ some buf
unfolding prompt
prompt-newlines zero pos buf l h = absurd (omega arith)
prompt-newlines (suc k) pos buf l h = ground (arith, prompt-newlines k (u8 (pos + 1)) buf)

enter : (pos : ℕ) (buf : List ℕ) → min_password_len ≤ pos → prompt (newline ∷ []) pos buf ≡ some buf
unfolding prompt
enter pos buf h = rw (le→leb _ _ h)

-- When the rest of the keys is accepted with the buffer as the password left it, the password is
-- what the hash is given.
get_passwd-keys :
    (pw keys : List ℕ)
    → All IsKey pw
    → length pw < 256
    → ((buf : List ℕ) → prompt keys (length pw) buf ≡ some buf)
    → get_passwd (pw ++ keys) ≡ some pw
unfolding get_passwd
get_passwd-keys pw keys h small accepted =
    let n : ℕ = passwd_buf_len - length pw in
    let typed : prompt (pw ++ keys) 0 (replicate passwd_buf_len 0) ≡ some (pw ++ replicate n 0) =
      prompt-keys pw keys [] passwd_buf_len n 0 h refl (omega arith) (omega arith)
      ∙ ap (λ p. prompt keys p (pw ++ replicate n 0)) {x = 0 + length pw} {y = length pw}
          (omega arith)
      ∙ accepted (pw ++ replicate n 0) in
    rw (typed, get_passwd) (ap some (c_string-keys pw n h))

-- A password of 6 to 255 keys, ended by a newline, is handed to the hash as it was typed.
pub get_passwd-typed :
    (pw : List ℕ)
    → All IsKey pw
    → min_password_len ≤ length pw
    → length pw < 256
    → get_passwd (pw ++ (newline ∷ [])) ≡ some pw
get_passwd-typed pw h long small =
    get_passwd-keys pw (newline ∷ []) h small (λ buf. enter (length pw) buf long)

-- A password of at most 6 keys, none at all included, is handed to the hash as well when the
-- newline is pressed until the number of keys is above 6.
pub get_passwd-newlines :
    (pw : List ℕ) (k : ℕ)
    → All IsKey pw
    → length pw ≤ min_password_len
    → min_password_len < length pw + k
    → get_passwd (pw ++ replicate k newline) ≡ some pw
get_passwd-newlines pw k h short enough =
    get_passwd-keys pw (replicate k newline) h (omega arith)
      (λ buf. prompt-newlines k (length pw) buf short enough)
