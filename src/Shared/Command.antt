-- ===== src/Shared/Command.antt =====
-- IsDestructivePayload of shared/command.go.
use librawatch.Common.{
  ℕ, zero, suc, ◌-◌, Text, codes, is_space, text_eq, to_lower, contains, has_prefix, length,
  if◌then◌else◌, Bool, true, false, ◌||◌, List, [], ◌∷◌, ◌++◌, any,
}

-- strings.ReplaceAll(s, p, "") for a text p that is not empty; the number counts what is left to
-- skip of a place where p was found.
unfoldable pub remove_all : Text → ℕ → Text → Text
unfolding has_prefix
remove_all p skip [] = []
remove_all p (suc skip) (c ∷ s) = remove_all p skip s
remove_all p zero (c ∷ s) =
    let found = has_prefix p (c ∷ s) in
    let rest = remove_all p (if found then length p - 1 else 0) s in
    if found then rest else c ∷ rest

abbrev pub cons_word : Text → List Text → List Text
cons_word [] ws = ws
cons_word (c ∷ w) ws = (c ∷ w) ∷ ws

-- strings.Fields: the words, and the first of them as far as it is read.
unfoldable pub split_words : Text → Text × List Text
unfolding is_space
split_words [] = ([], [])
split_words (c ∷ s) =
    let (w, ws) = split_words s in if is_space c then ([], cons_word w ws) else (c ∷ w, ws)

unfoldable pub fields : Text → List Text
unfolding split_words
fields s = let (w, ws) = split_words s in cons_word w ws

-- strings.Join(ws, " ")
unfoldable pub join : List Text → Text
join [] = []
join (w ∷ []) = w
join (w ∷ (v ∷ ws)) = w ++ 32 ∷ join (v ∷ ws)

abbrev pub power_flags : List Text
power_flags =
    codes "/s"
    ∷ codes "-s"
    ∷ codes "/r"
    ∷ codes "-r"
    ∷ codes "/g"
    ∷ codes "-g"
    ∷ codes "/p"
    ∷ codes "-p"
    ∷ codes "/hybrid"
    ∷ codes "-hybrid"
    ∷ []

unfoldable pub has_power_flag : Text → Bool
unfolding any contains
has_power_flag p =
    any (λ flag. contains p (codes "shutdown " ++ flag) || contains p (codes "shutdown" ++ flag))
      power_flags

unfoldable pub is_destructive_payload : Text → Text → Bool
unfolding text_eq to_lower contains remove_all fields join has_power_flag
is_destructive_payload job_type payload =
    if text_eq job_type (codes "exec")
    then (let p = to_lower payload in
        if contains p (codes "restart-computer") || contains p (codes "stop-computer")
        then true
        else has_power_flag (join (fields (remove_all (codes ".exe") 0 p))))
    else false
