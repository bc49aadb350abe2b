-- ===== src/Shared/Quoting.antt =====
-- Quoted words are read back as they are.
use librawatch.Common.{
  Text, text_eq, Bool, true, false, not, ◌&&◌, ◌||◌, ◌==◌, ◌≡◌, refl, sym, ◌∙◌, ap, if_rule,
  if◌then◌else◌, Option, none, some, List, [], ◌∷◌, ◌++◌, All, any,
}
use librawatch.Shared.CommandLine.{
  Tokens, read_blank, read_rune, read_runes, close_tokens, tokenize_command_line,
  is_absolute_exe_path, is_blocklisted, check_tokens, parse_quiet_uninstall_command,
}

abbrev pub IsPlain : Text → Type 0
IsPlain = All (λ c. (c == 34) ≡ false)

-- The words between quotes, and a blank between two words.
unfoldable pub quoted : Text → Text
quoted w = 34 ∷ (w ++ 34 ∷ [])

unfoldable pub command_line : List Text → Text
unfolding quoted
command_line [] = []
command_line (w ∷ []) = quoted w
command_line (w ∷ (v ∷ ws)) = quoted w ++ 32 ∷ command_line (v ∷ ws)

read_runes-append :
    (s u : Text) (t : Tokens) → read_runes (s ++ u) t ≡ read_runes u (read_runes s t)
unfolding read_runes
read_runes-append [] u t = refl
read_runes-append (c ∷ s) u t = read_runes-append s u (read_rune c t)

append_assoc {ℓ} : {A : Type ℓ} (a : List A) (c : A) (b : List A) → (a ++ c ∷ []) ++ b ≡ a ++ c ∷ b
append_assoc [] c b = refl
append_assoc (x ∷ a) c b = ap (λ l. x ∷ l) (append_assoc a c b)

append_nil {ℓ} : {A : Type ℓ} (a : List A) → a ++ [] ≡ a
append_nil [] = refl
append_nil (x ∷ a) = ap (λ l. x ∷ l) (append_nil a)

-- What the loop holds between quotes.
abbrev inside : Text → List Text → Tokens
inside cur tokens = record { in_quotes = true; has_token = true; cur = cur; tokens = tokens }

read_plain :
    (w cur : Text) (tokens : List Text)
    → IsPlain w
    → read_runes w (inside cur tokens) ≡ inside (cur ++ w) tokens
unfolding read_runes
read_plain [] cur tokens h = ap (λ c. inside c tokens) (sym (append_nil cur))
read_plain (c ∷ w) cur tokens h =
    ap (read_runes w) kept
    ∙ read_plain w (cur ++ c ∷ []) tokens h.1
    ∙ ap (λ l. inside l tokens) (append_assoc cur c w)
  where
    kept : read_rune c (inside cur tokens) ≡ inside (cur ++ c ∷ []) tokens
    kept =
        unfold read_rune read_blank in
        if_rule (λ t. t ≡ inside (cur ++ c ∷ []) tokens) (c == 34) _ _ (λ e. cc (h.0))
          (λ e.
            if_rule (λ t. t ≡ inside (cur ++ c ∷ []) tokens) ((c == 32) || (c == 9)) _ _ (λ f. refl)
              (λ f. refl))

-- Between two words, and after the closing quote of one.
abbrev outside : List Text → Tokens
outside tokens = record { in_quotes = false; has_token = false; cur = []; tokens = tokens }

abbrev closed : Text → List Text → Tokens
closed w tokens = record { in_quotes = false; has_token = true; cur = w; tokens = tokens }

read_quoted :
    (w : Text) (tokens : List Text)
    → IsPlain w
    → read_runes (quoted w) (outside tokens) ≡ closed w tokens
unfolding read_runes quoted read_rune
read_quoted w tokens h =
    read_runes-append w (34 ∷ []) (inside [] tokens)
    ∙ ap (read_runes (34 ∷ [])) (read_plain w [] tokens h)

read_command_line :
    (ws tokens : List Text)
    → All IsPlain ws
    → close_tokens (read_runes (command_line ws) (outside tokens)) ≡ some (tokens ++ ws)
unfolding command_line close_tokens read_runes
read_command_line [] tokens h = ap some (sym (append_nil tokens))
read_command_line (w ∷ []) tokens h = ap close_tokens (read_quoted w tokens h.0)
read_command_line (w ∷ (v ∷ ws)) tokens h =
    ap close_tokens (
      read_runes-append (quoted w) (32 ∷ command_line (v ∷ ws)) (outside tokens)
      ∙ ap (read_runes (32 ∷ command_line (v ∷ ws))) (read_quoted w tokens h.0))
    ∙ (unfold read_rune read_blank in read_command_line (v ∷ ws) (tokens ++ w ∷ []) h.1)
    ∙ ap some (append_assoc tokens w (v ∷ ws))

command_line_some : (w : Text) (ws : List Text) → text_eq (command_line (w ∷ ws)) [] ≡ false
unfolding command_line quoted text_eq
command_line_some w [] = refl
command_line_some w (v ∷ ws) = refl

-- A program and its arguments, none of which has a quote character, written with quotes around each
-- where the line has no zero character, are read back as they are by the parser of uninstall
-- commands, exactly when the program is an absolute path to an .exe that is not on the list of
-- hosts; otherwise the command is refused.
pub parse_quiet_uninstall_command-command_line :
    (exe : Text) (args : List Text)
    → All IsPlain (exe ∷ args)
    → any (λ c. c == 0) (command_line (exe ∷ args)) ≡ false
    → parse_quiet_uninstall_command (command_line (exe ∷ args))
      ≡ (if is_absolute_exe_path exe && not (is_blocklisted exe) then some (exe, args) else none)
unfolding parse_quiet_uninstall_command tokenize_command_line check_tokens
parse_quiet_uninstall_command-command_line exe args h nul =
    rw (command_line_some exe args, nul)
      (ap check_tokens (read_command_line (exe ∷ args) [] h)
        ∙ checked (is_absolute_exe_path exe) (is_blocklisted exe))
  where
    checked :
        (x y : Bool)
        → let parsed : Option (Text × List Text) = some (exe, args) in
          (if not x then none else if y then none else parsed)
          ≡ (if x && not y then parsed else none)
    checked true true = refl
    checked true false = refl
    checked false y = refl
