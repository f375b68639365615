-- ===== src/Utils/Paths.antt =====
-- The split of a path at its last slash.
use fcfs.Base.{
  ℕ, zero, suc, ◌+◌, ◌-◌, ◌≤◌, ◌<◌, ◌≡◌, refl, ◌≢◌, true, false, none, some, [], ◌∷◌, ◌++◌, arith,
  ◌==◌, if◌then◌else◌, All, get_or, take, drop, length, Bool-cases, Option-cases, inl, inr, ap, sym,
  ◌∙◌, take-append, length-append,
}
use fcfs.Utils.{
  Text, slash, back_to_slash, get_parrent_path, parrent, last_name, strcmp_raw, pathcmp,
}

-- The walk stops at the first slash that it meets.
back_to_slash-at :
    (path : Text) (i k : ℕ)
    → k ≤ i
    → get_or path k 0 ≡ slash
    → ((j : ℕ) → k < j → j ≤ i → get_or path j 0 ≢ slash)
    → back_to_slash path i ≡ some k
unfolding back_to_slash
back_to_slash-at path zero zero l at past = ground arith
back_to_slash-at path zero (suc k) l at past = absurd (omega arith)
back_to_slash-at path (suc i) k l at past = elim (Bool-cases (get_or path (suc i) 0 == slash)) [
  | inl hit ↦ ground (arith, past (suc i))
  | inr miss ↦
      let ne : k ≢ suc i = λ e. absurd (ground (arith, ap (λ j. get_or path j 0) e)) in
      rw miss (back_to_slash-at path i k (omega arith) at (λ j a b. past j a (omega arith)))
]

-- No slash: every read goes on to the front of the string.
back_to_slash-none :
    (path : Text) (i : ℕ)
    → ((j : ℕ) → j ≤ i → get_or path j 0 ≢ slash)
    → back_to_slash path i ≡ none
unfolding back_to_slash
back_to_slash-none path zero away = ground (arith, away 0)
back_to_slash-none path (suc i) away =
    ground (arith, away (suc i), back_to_slash-none path i (λ j a. away j (omega arith)))

get_or-append :
    (dir rest : Text) (j : ℕ) → get_or (dir ++ rest) (length dir + j) 0 ≡ get_or rest j 0
get_or-append [] rest j = ap (λ k. get_or rest k 0) {x = 0 + j} (omega arith)
get_or-append (c ∷ dir) rest j =
    ap (λ k. get_or (c ∷ dir ++ rest) k 0) {x = suc (length dir) + j} {y = suc (length dir + j)}
      (omega arith)
    ∙ get_or-append dir rest j

-- The codes of a name: none is a slash.
abbrev pub IsName : Text → Type 0
IsName = All (λ c. c ≢ slash)

IsName-get_or : (name : Text) (j : ℕ) → IsName name → get_or name j 0 ≢ slash
IsName-get_or [] j h = ground arith
IsName-get_or (c ∷ name) zero h = h.0
IsName-get_or (c ∷ name) (suc j) h = IsName-get_or name j h.1

-- Of a path that is a directory, a slash and a name with no slash in it, get_parrent_path returns
-- the length of the directory.
pub get_parrent_path-split :
    (dir name : Text) → IsName name → get_parrent_path (dir ++ (slash ∷ name)) ≡ some (length dir)
unfolding get_parrent_path
get_parrent_path-split dir name plain =
    back_to_slash-at path (length path) (length dir)
      (omega (arith, length-append dir (slash ∷ name)))
      (ap (λ j. get_or path j 0) {x = length dir} {y = length dir + 0} (omega arith) ∙ at 0) past
  where
    path : Text
    path = dir ++ (slash ∷ name)

    at : (j : ℕ) → get_or path (length dir + j) 0 ≡ get_or (slash ∷ name) j 0
    at = get_or-append dir (slash ∷ name)

    past : (j : ℕ) → length dir < j → j ≤ length path → get_or path j 0 ≢ slash
    past j a b e =
        let k : ℕ = j - length dir - 1 in
        let here : length dir + suc k ≡ j = omega arith in
        IsName-get_or name k plain (sym (at (suc k)) ∙ ap (λ i. get_or path i 0) here ∙ e)

get_parrent_path-none : (name : Text) → IsName name → get_parrent_path name ≡ none
unfolding get_parrent_path
get_parrent_path-none name plain =
    back_to_slash-none name (length name) (λ j a. IsName-get_or name j plain)

take_dir :
    (dir name : Text)
    → take (if length dir == 0 then 1 else length dir) (dir ++ (slash ∷ name))
      ≡ (if length dir == 0 then slash ∷ [] else dir)
take_dir [] name = refl
take_dir (c ∷ dir) name =
    let some_dir : (length (c ∷ dir) == 0) ≡ false = ground arith in
    rw some_dir (take-append (c ∷ dir) (slash ∷ name))

drop-suc : (dir name : Text) → drop (suc (length dir)) (dir ++ (slash ∷ name)) ≡ name
drop-suc [] name = refl
drop-suc (c ∷ dir) name = drop-suc dir name

drop_dir : (dir name : Text) → drop (length dir + 1) (dir ++ (slash ∷ name)) ≡ name
drop_dir dir name =
    ap (λ k. drop k (dir ++ (slash ∷ name))) {x = length dir + 1} {y = suc (length dir)}
      (omega arith)
    ∙ drop-suc dir name

-- Of such a path the driver looks up the directory in the directory part, or in the root if that
-- part is empty, and the name in it is the part behind the slash. Of a text with no slash both
-- walks leave the string at the front.
pub parrent-last_name :
    (dir name : Text)
    → IsName name
    → (parrent (dir ++ (slash ∷ name)) ≡ some (if length dir == 0 then slash ∷ [] else dir))
      × (last_name (dir ++ (slash ∷ name)) ≡ some name)
      × (parrent name ≡ none)
      × (last_name name ≡ none)
unfolding parrent last_name
parrent-last_name dir name plain = (
  rw (get_parrent_path-split dir name plain, parrent) (ap some (take_dir dir name)),
  rw (get_parrent_path-split dir name plain, last_name) (ap some (drop_dir dir name)),
  rw (get_parrent_path-none name plain, parrent),
  rw (get_parrent_path-none name plain, last_name),
)

strcmp_raw-ne : (a tmp : Text) → strcmp_raw a tmp ≢ some true
unfolding strcmp_raw
strcmp_raw-ne a [] = ground arith
strcmp_raw-ne [] (c ∷ tmp) = ground arith
strcmp_raw-ne (b ∷ a) (c ∷ tmp) = ground (arith, strcmp_raw-ne a tmp)

strcmp_raw_self : (a : Text) → strcmp_raw a a ≡ none
unfolding strcmp_raw
strcmp_raw_self [] = refl
strcmp_raw_self (c ∷ a) = ground (arith, strcmp_raw_self a)

-- pathcmp never answers that its first argument is the directory of its second: for the very
-- directory the comparison reads behind the copied buffer, which has no terminator.
pub pathcmp-ne :
    (a b dir name : Text)
    → IsName name
    → (pathcmp a b ≢ some true) × (pathcmp dir (dir ++ (slash ∷ name)) ≡ none)
unfolding pathcmp
pathcmp-ne a b dir name plain = (
  elim (Option-cases (get_parrent_path b)) [
    | inl e ↦ rw (e, pathcmp) (ground arith)
    | inr (bl, e) ↦ rw (e, pathcmp) (strcmp_raw-ne a (take bl b))
  ],
  rw (get_parrent_path-split dir name plain, pathcmp)
      (ap (strcmp_raw dir) (take-append dir (slash ∷ name)) ∙ strcmp_raw_self dir),
)
