-- ===== src/Software/Endpoint.antt =====
-- The agent's side of an uninstall job, agent/softwareinventory.go. What the operating system
-- says of a path, and how a program that is started ends, are arguments.
use librawatch.Common.{
  Text, codes, text_eq, trim_space, Bool, true, false, not, ◌||◌, if◌then◌else◌, Option, none, some,
  List, [], ◌∷◌, ◌++◌,
}
use librawatch.Common.Int.{ℤ, negsuc, pos}
use librawatch.Shared.Product.{normalize_product_code}
use librawatch.Shared.CommandLine.{parse_quiet_uninstall_command}
use librawatch.Software.Inventory.{SoftwareItem, identity_key}

-- invByKey: a map, as the function of its keys.
abbrev pub Snapshot : Type 0
Snapshot = Text → Option SoftwareItem

-- m[e.identityKey()] = e, for every entry in order.
unfoldable pub put_entries : List SoftwareItem → Snapshot → Snapshot
put_entries [] m key = m key
put_entries (e ∷ entries) m key =
    put_entries entries (λ k. if text_eq (identity_key e) k then some e else m k) key

unfoldable pub replace_inventory_snapshot : List SoftwareItem → Snapshot
unfolding put_entries
replace_inventory_snapshot entries key = put_entries entries (λ k. none) key

pub record PsResult : Type 0 where
  pub status : Text
  pub output : Text
  pub exit_code : ℤ
  pub duration_ms : ℤ

-- How a program ends: an exit code is there if it ran to an end, and the error is what err says.
pub data CommandEnd : Type 0 where
  succeeds : CommandEnd
  exceeds_deadline : CommandEnd
  fails : (exit_code : Option ℤ) → (error : Text) → CommandEnd

abbrev pub code_or_minus_one : Option ℤ → ℤ
code_or_minus_one none = negsuc 0
code_or_minus_one (some code) = code

unfoldable pub then_line : Text → Text → Text
unfolding text_eq
then_line output line = if text_eq output [] then line else output ++ 10 ∷ line

-- The switch of runStructuredCommand.
unfoldable pub structured_result : Text → ℤ → CommandEnd → PsResult
unfolding then_line trim_space
structured_result out duration succeeds = record {
  status = codes "success";
  output = trim_space out;
  exit_code = pos 0;
  duration_ms = duration;
}
structured_result out duration exceeds_deadline = record {
  status = codes "error";
  output = then_line (trim_space out) (codes "[timeout: command exceeded execution time limit]");
  exit_code = negsuc 0;
  duration_ms = duration;
}
structured_result out duration (fails exit_code error) = record {
  status = codes "error";
  output = then_line (trim_space out) error;
  exit_code = code_or_minus_one exit_code;
  duration_ms = duration;
}

abbrev pub refusal : Text → PsResult
refusal output = record {
  status = codes "error";
  output = output;
  exit_code = negsuc 0;
  duration_ms = pos 0;
}

-- What a handler does: the program that it starts, the result that it sends, and whether it
-- triggers a new snapshot.
pub record Execution : Type 0 where
  pub started : Option (Text × List Text)
  pub result : PsResult
  pub rescans : Bool

abbrev pub refused : Text → Execution
refused output = record { started = none; result = refusal output; rescans = false }

abbrev pub msiexec_arguments : Text → List Text
msiexec_arguments guid = codes "/x" ∷ guid ∷ codes "/quiet" ∷ codes "/norestart" ∷ []

-- Step 5: is the payload what the entry has?
unfoldable pub is_current : Text → Option SoftwareItem → Bool
unfolding text_eq
is_current payload none = false
is_current payload (some e) =
    not (text_eq e.quiet_uninstall_string [] || not (text_eq e.quiet_uninstall_string payload))

module _ (end_of : Text → List Text → PsResult) where
  abbrev pub run_structured_command : Text → List Text → Execution
  run_structured_command exe args = record {
    started = some (exe, args);
    result = end_of exe args;
    rescans = true;
  }

  unfoldable pub uninstall_code : Option Text → Execution
  uninstall_code none = refused (codes "uninstall unsupported: invalid product code")
  uninstall_code (some guid) = run_structured_command (codes "msiexec.exe") (msiexec_arguments guid)

  unfoldable pub execute_msiexec_uninstall : Text → Execution
  unfolding uninstall_code normalize_product_code
  execute_msiexec_uninstall payload = uninstall_code (normalize_product_code payload)

  module _ (is_file : Text → Bool) where
    -- Steps 6 and 7.
    unfoldable pub start_parsed : Option (Text × List Text) → Execution
    start_parsed none =
        refused (codes "uninstall unsupported: command could not be safely validated")
    start_parsed (some (exe, args)) =
        if is_file exe
        then run_structured_command exe args
        else refused (codes "uninstall unsupported: target executable not found")

    unfoldable pub execute_quiet_uninstall : Snapshot → Text → Text → Execution
    unfolding is_current start_parsed
    execute_quiet_uninstall inventory payload key =
        if is_current payload (inventory key)
        then start_parsed (parse_quiet_uninstall_command payload)
        else refused (codes "uninstall unsupported: stale or mismatched inventory state")
