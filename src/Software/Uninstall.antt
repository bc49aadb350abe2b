-- ===== src/Software/Uninstall.antt =====
-- classifyUninstall of server/software.go and validateDeployRequest of server/api.go.
use librawatch.Common.{
  ℕ, Text, codes, text_eq, Bool, false, not, ◌&&◌, ◌||◌, leb, ltb, ◌==◌, if◌then◌else◌, Option,
  none, some, is_some, List, [], ◌∷◌, ◌++◌, any,
}
use librawatch.Shared.Command.{fields}
use librawatch.Shared.Product.{normalize_product_code}
use librawatch.Shared.CommandLine.{parse_quiet_uninstall_command}
use librawatch.Command.Action.{byte_length}
use librawatch.Software.Inventory.{InventoryRow}

abbrev pub is_alphanumeric : ℕ → Bool
is_alphanumeric c = (leb 48 c && leb c 57) || (leb 65 c && leb c 90) || (leb 97 c && leb c 122)

-- [\w.\-+]
abbrev pub is_id_char : ℕ → Bool
is_id_char c = is_alphanumeric c || (c == 95) || (c == 46) || (c == 45) || (c == 43)

-- wingetIDRe
unfoldable pub is_winget_id : Text → Bool
unfolding any
is_winget_id [] = false
is_winget_id (c ∷ s) = is_alphanumeric c && not (any (λ d. not (is_id_char d)) s)

pub data Uninstall : Type 0 where
  supported : (tier : Text) → (job_type : Text) → (payload : Text) → (args : Text) → Uninstall
  unsupported : (reason : Text) → Uninstall

abbrev pub no_mechanism : Text
no_mechanism =
    codes
      "No MSI ProductCode, no safely-parseable QuietUninstallString, and no recognized winget package ID — this software has no known silent uninstall mechanism"

abbrev pub winget_payload : Text → Text
winget_payload id =
    codes "winget uninstall --id " ++ (id ++ codes " --silent --accept-source-agreements")

unfoldable pub classify_winget : InventoryRow → Uninstall
unfolding is_winget_id text_eq
classify_winget row =
    if not (text_eq row.item.winget_id []) && is_winget_id row.item.winget_id
    then supported (codes "C") (codes "winget") (winget_payload row.item.winget_id) []
    else unsupported no_mechanism

unfoldable pub classify_quiet : InventoryRow → Uninstall
unfolding parse_quiet_uninstall_command text_eq classify_winget
classify_quiet row =
    if not (text_eq row.item.quiet_uninstall_string [])
      && is_some (parse_quiet_uninstall_command row.item.quiet_uninstall_string)
    then supported (codes "B") (codes "quiet_uninstall") row.item.quiet_uninstall_string
        row.identity_key
    else classify_winget row

unfoldable pub classify_code : InventoryRow → Option Text → Uninstall
unfolding classify_quiet
classify_code row none = classify_quiet row
classify_code row (some guid) = supported (codes "A") (codes "msiexec_uninstall") guid []

unfoldable pub classify_uninstall : InventoryRow → Uninstall
unfolding classify_code normalize_product_code
classify_uninstall row =
    if row.item.windows_installer
    then classify_code row (normalize_product_code row.item.product_code)
    else classify_quiet row

-- None for a request that passes, or else the error.
unfoldable pub check_winget_fields : List Text → Option Text
unfolding is_winget_id text_eq
check_winget_fields (winget ∷ (verb ∷ (flag ∷ (id ∷ rest)))) =
    if not (text_eq winget (codes "winget"))
      || ((not (text_eq verb (codes "install")) && not (text_eq verb (codes "uninstall")))
          || not (text_eq flag (codes "--id")))
    then some (codes "invalid winget command format")
    else if not (is_winget_id id)
    then some (
        codes
          "invalid winget package ID: only letters, digits, dots, dashes, underscores and plus signs allowed")
    else none
check_winget_fields _ = some (codes "invalid winget command format")

unfoldable pub check_text : ℕ → Text → Text → Option Text
unfolding byte_length any
check_text limit name t =
    if ltb limit (byte_length t)
    then some (
        name
        ++ (codes " exceeds maximum length of "
            ++ ((if limit == 512 then codes "512" else codes "8192") ++ codes " characters")))
    else if any (λ c. c == 0) t
    then some (name ++ codes " contains invalid characters")
    else none

unfoldable pub check_quiet : Text → Text → Option Text
unfolding parse_quiet_uninstall_command text_eq
check_quiet payload args =
    if not (is_some (parse_quiet_uninstall_command payload))
    then some (codes "invalid quiet_uninstall payload: command failed structural validation")
    else if text_eq args []
    then some (codes "quiet_uninstall requires args (software identity key)")
    else none

unfoldable pub validate_deploy_request : Text → Text → Text → Option Text
unfolding text_eq check_text check_winget_fields fields normalize_product_code check_quiet any
validate_deploy_request type payload args =
    if text_eq type (codes "exec")
    then check_text 8192 (codes "payload") payload
    else if text_eq type (codes "winget")
    then check_winget_fields (fields payload)
    else if text_eq type (codes "file_deploy")
    then check_text 512 (codes "args") args
    else if text_eq type (codes "deepfreeze")
    then (if any (text_eq payload) (codes "thaw" ∷ codes "freeze" ∷ codes "query_df" ∷ [])
        then none
        else some (codes "invalid deepfreeze action: must be thaw, freeze, or query_df"))
    else if text_eq type (codes "install_ssh")
    then none
    else if text_eq type (codes "msiexec_uninstall")
    then (if is_some (normalize_product_code payload)
        then none
        else some (codes "invalid msiexec_uninstall payload: not a valid MSI product code"))
    else if text_eq type (codes "quiet_uninstall")
    then check_quiet payload args
    else some (codes "unknown deploy type: " ++ type)
