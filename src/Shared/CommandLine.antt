-- ===== src/Shared/CommandLine.antt =====
-- tokenizeCommandLine and ParseQuietUninstallCommand of shared/software.go.
use librawatch.Common.{
  ℕ, Text, codes, text_eq, to_lower, Bool, true, false, not, ◌&&◌, ◌||◌, leb, ◌==◌, if◌then◌else◌,
  Option, none, some, List, [], ◌∷◌, ◌++◌, any,
}

-- What the loop keeps.
pub record Tokens : Type 0 where
  pub in_quotes : Bool
  pub has_token : Bool
  pub cur : Text
  pub tokens : List Text

unfoldable pub read_blank : ℕ → Tokens → Tokens
read_blank c t =
    if t.in_quotes
    then record t { cur = t.cur ++ c ∷ [] }
    else if t.has_token
    then record t { tokens = t.tokens ++ t.cur ∷ []; cur = []; has_token = false }
    else t

unfoldable pub read_rune : ℕ → Tokens → Tokens
unfolding read_blank
read_rune c t =
    if c == 34
    then record t { in_quotes = not t.in_quotes; has_token = true }
    else if (c == 32) || (c == 9)
    then read_blank c t
    else record t { cur = t.cur ++ c ∷ []; has_token = true }

unfoldable pub read_runes : Text → Tokens → Tokens
unfolding read_rune
read_runes [] t = t
read_runes (c ∷ s) t = read_runes s (read_rune c t)

unfoldable pub close_tokens : Tokens → Option (List Text)
close_tokens t =
    if t.in_quotes
    then none
    else if t.has_token
    then some (t.tokens ++ t.cur ∷ [])
    else some t.tokens

abbrev pub no_tokens : Tokens
no_tokens = record { in_quotes = false; has_token = false; cur = []; tokens = [] }

unfoldable pub tokenize_command_line : Text → Option (List Text)
unfolding read_runes close_tokens
tokenize_command_line s = close_tokens (read_runes s no_tokens)

abbrev pub blocklisted_uninstall_hosts : List Text
blocklisted_uninstall_hosts =
    codes "cmd.exe"
    ∷ codes "powershell.exe"
    ∷ codes "pwsh.exe"
    ∷ codes "wscript.exe"
    ∷ codes "cscript.exe"
    ∷ codes "mshta.exe"
    ∷ codes "rundll32.exe"
    ∷ codes "regsvr32.exe"
    ∷ codes "cmstp.exe"
    ∷ codes "installutil.exe"
    ∷ codes "msbuild.exe"
    ∷ codes "forfiles.exe"
    ∷ codes "certutil.exe"
    ∷ codes "bitsadmin.exe"
    ∷ codes "wmic.exe"
    ∷ codes "conhost.exe"
    ∷ codes "control.exe"
    ∷ []

-- [A-Za-z] under (?i), which folds two letters more onto k and s.
abbrev pub is_letter : ℕ → Bool
is_letter c = (leb 65 c && leb c 90) || (leb 97 c && leb c 122) || (c == 0x17F) || (c == 0x212A)

-- .*\.exe$ under (?i), where . is no newline.
unfoldable pub ends_in_exe : Text → Bool
unfolding text_eq to_lower
ends_in_exe [] = false
ends_in_exe (c ∷ s) =
    let rest = ends_in_exe s in text_eq (to_lower (c ∷ s)) (codes ".exe") || (not (c == 10) && rest)

unfoldable pub is_absolute_exe_path : Text → Bool
unfolding ends_in_exe
is_absolute_exe_path (drive ∷ (colon ∷ (slash ∷ (c ∷ rest)))) =
    is_letter drive && ((colon == 58) && ((slash == 92) && (not (c == 92) && ends_in_exe rest)))
is_absolute_exe_path _ = false

-- What follows the last backslash, or the whole text when there is none.
unfoldable pub base_name : Text → Text → Text
base_name found [] = found
base_name found (c ∷ s) = base_name (if c == 92 then s else found) s

unfoldable pub is_blocklisted : Text → Bool
unfolding base_name to_lower any text_eq
is_blocklisted exe = any (text_eq (to_lower (base_name exe exe))) blocklisted_uninstall_hosts

unfoldable pub check_tokens : Option (List Text) → Option (Text × List Text)
check_tokens none = none
check_tokens (some []) = none
check_tokens (some (candidate ∷ args)) =
    if not (is_absolute_exe_path candidate)
    then none
    else if is_blocklisted candidate
    then none
    else some (candidate, args)

unfoldable pub parse_quiet_uninstall_command : Text → Option (Text × List Text)
unfolding tokenize_command_line check_tokens any text_eq
parse_quiet_uninstall_command raw =
    if text_eq raw [] || any (λ c. c == 0) raw
    then none
    else check_tokens (tokenize_command_line raw)
