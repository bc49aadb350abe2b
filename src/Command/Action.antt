-- ===== src/Command/Action.antt =====
-- sanitizeExecMessage and actionToJob of server/commands.go. None stands for an error.
use librawatch.Common.{
  ℕ, ◌+◌, Text, trim_space, codes, text_eq, any, Bool, false, ◌&&◌, ◌||◌, leb, ltb, ◌==◌,
  if◌then◌else◌, Option, none, some, [], ◌∷◌, ◌++◌,
}

-- The bytes of a code point in UTF-8.
abbrev pub rune_length : ℕ → ℕ
rune_length c = if ltb c 0x80 then 1 else if ltb c 0x800 then 2 else if ltb c 0x10000 then 3 else 4

unfoldable pub byte_length : Text → ℕ
byte_length [] = 0
byte_length (c ∷ s) = rune_length c + byte_length s

abbrev pub is_control : ℕ → Bool
is_control c = leb c 0x1f || (c == 0x7f)

-- strings.ReplaceAll(msg, "'", "''")
unfoldable pub double_quotes : Text → Text
double_quotes [] = []
double_quotes (c ∷ s) = let rest = double_quotes s in if c == 39 then 39 ∷ 39 ∷ rest else c ∷ rest

unfoldable pub check_message : Text → Option Text
unfolding text_eq byte_length any double_quotes
check_message msg =
    if text_eq msg []
    then none
    else if ltb 500 (byte_length msg)
    then none
    else if any is_control msg
    then none
    else some (double_quotes msg)

unfoldable pub sanitize_exec_message : Text → Option Text
unfolding trim_space check_message
sanitize_exec_message msg = check_message (trim_space msg)

abbrev pub is_name_char : ℕ → Bool
is_name_char c =
    (leb 65 c && leb c 90)
    || (leb 97 c && leb c 122)
    || (leb 48 c && leb c 57)
    || (c == 95)
    || (c == 46)
    || (c == 45)

-- [A-Za-z0-9_.\-]*\.exe$
unfoldable pub is_name_rest : Text → Bool
unfolding text_eq
is_name_rest [] = false
is_name_rest (c ∷ s) =
    let rest = is_name_rest s in text_eq (c ∷ s) (codes ".exe") || (is_name_char c && rest)

-- commandProcessNameRe
unfoldable pub is_process_name : Text → Bool
unfolding is_name_rest
is_process_name [] = false
is_process_name (c ∷ s) = is_name_char c && is_name_rest s

-- The parameters that the actions read, empty where they are missing or no strings.
pub record Params : Type 0 where
  pub process : Text
  pub message : Text
  pub command : Text

-- The payload of the exec job for an action; the arguments are empty.
abbrev pub message_payload : Option Text → Option Text
message_payload none = none
message_payload (some escaped) = some (codes "msg * /TIME:30 '" ++ (escaped ++ codes "'"))

unfoldable pub action_with_params : Text → Params → Option Text
unfolding text_eq is_process_name sanitize_exec_message
action_with_params action p =
    if text_eq action (codes "kill_process")
    then (if is_process_name p.process then some (codes "taskkill /F /IM " ++ p.process) else none)
    else if text_eq action (codes "broadcast") || text_eq action (codes "popup")
    then message_payload (sanitize_exec_message p.message)
    else if text_eq action (codes "run_command")
    then (if text_eq p.command [] then none else some p.command)
    else none

unfoldable pub action_to_job : Text → Params → Option Text
unfolding action_with_params text_eq
action_to_job action p =
    if text_eq action (codes "restart")
    then some (codes "Restart-Computer -Force")
    else if text_eq action (codes "shutdown")
    then some (codes "Stop-Computer -Force")
    else if text_eq action (codes "lock")
    then some (codes "rundll32.exe user32.dll,LockWorkStation")
    else if text_eq action (codes "logout")
    then some (codes "shutdown.exe /l")
    else if text_eq action (codes "sleep")
    then some (codes "rundll32.exe powrprof.dll,SetSuspendState 0,1,0")
    else action_with_params action p
