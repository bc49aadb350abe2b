-- ===== src/Command/Literal.antt =====
-- A message cannot leave the PowerShell literal that it is put in.
use librawatch.Common.{
  ℕ, Text, text_eq, trim_space, Bool, true, false, not, ◌&&◌, ◌||◌, leb, ltb, ◌==◌, any,
  if◌then◌else◌, if_rule, Option, none, some, [], ◌∷◌, ◌++◌, All, ◌≡◌, refl, arith, subst,
}
use librawatch.Command.Action.{
  byte_length, is_control, double_quotes, check_message, sanitize_exec_message,
}

-- The characters that PowerShell takes for a single quote: the apostrophe and four typographic
-- quotes.
abbrev pub is_typographic : ℕ → Bool
is_typographic c = leb 0x2018 c && leb c 0x201B

abbrev pub is_single_quote : ℕ → Bool
is_single_quote c = (c == 39) || is_typographic c

abbrev pub cons_char : ℕ → Option (Text × Text) → Option (Text × Text)
cons_char c none = none
cons_char c (some (t, rest)) = some (c ∷ t, rest)

-- A single-quoted literal from after its opening quote: its text and what follows it. A quote is
-- pending until the next character shows whether it is doubled.
unfoldable pub read_literal : Bool → Text → Option (Text × Text)
read_literal false [] = none
read_literal true [] = some ([], [])
read_literal pending (c ∷ s) =
    let quote = is_single_quote c in
    let next = read_literal (not pending && quote) s in
    let ended : Option (Text × Text) = some ([], c ∷ s) in
    if pending
    then (if quote then cons_char c next else ended)
    else if quote
    then next
    else cons_char c next

read_plain :
    (c : ℕ) (s : Text) (r : Option (Text × Text))
    → (c == 39) ≡ false
    → is_typographic c ≡ false
    → read_literal false s ≡ r
    → read_literal false (c ∷ s) ≡ cons_char c r
unfolding read_literal
read_plain c s r e h f = let q : is_single_quote c ≡ false = ground arith in rw (q, f) refl

read_pair :
    (c : ℕ) (s : Text) (r : Option (Text × Text))
    → (c == 39) ≡ true
    → read_literal false s ≡ r
    → read_literal false (39 ∷ 39 ∷ s) ≡ cons_char c r
unfolding read_literal
read_pair c s r e f = let same : c ≡ 39 = ground arith in rw (f, same) refl

read_doubled :
    (msg : Text)
    → All (λ c. is_typographic c ≡ false) msg
    → read_literal false (double_quotes msg ++ 39 ∷ []) ≡ some (msg, [])
unfolding double_quotes
read_doubled [] h = unfold read_literal in refl
read_doubled (c ∷ s) h =
    if_rule (λ (t : Text). read_literal false (t ++ 39 ∷ []) ≡ some (c ∷ s, [])) (c == 39) _ _
      (λ e. read_pair c (double_quotes s ++ 39 ∷ []) _ e (read_doubled s h.1))
      (λ e. read_plain c (double_quotes s ++ 39 ∷ []) _ e h.0 (read_doubled s h.1))

-- Every message that passes the check and has no typographic quote is read back by PowerShell as
-- the trimmed message, and nothing follows it in the literal.
pub sanitize_exec_message-read_literal :
    (raw escaped : Text)
    → sanitize_exec_message raw ≡ some escaped
    → All (λ c. is_typographic c ≡ false) (trim_space raw)
    → read_literal false (escaped ++ 39 ∷ []) ≡ some (trim_space raw, [])
unfolding sanitize_exec_message check_message
sanitize_exec_message-read_literal raw escaped h plain =
    subst (λ (t : Text). read_literal false (t ++ 39 ∷ []) ≡ some (trim_space raw, []))
      (passed (text_eq (trim_space raw) []) (ltb 500 (byte_length (trim_space raw)))
        (any is_control (trim_space raw)) (double_quotes (trim_space raw)) h)
      (read_doubled (trim_space raw) plain)
  where
    passed :
        (x y z : Bool) (d : Text)
        → (if x then none else if y then none else if z then none else some d) ≡ some escaped
        → d ≡ escaped
    passed true y z d e = cc
    passed false true z d e = cc
    passed false false true d e = cc
    passed false false false d e = cc
