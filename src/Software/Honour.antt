-- ===== src/Software/Honour.antt =====
-- The agent honours what the server offers for the inventory that both have.
use librawatch.Common.{
  ℕ, Text, codes, text_eq, text_eq_refl, text_eq_iff, Bool, true, false, not, ◌&&◌, if◌then◌else◌,
  if_rule, Option, none, some, is_some, coalesce, find-passes, List, [], ◌∷◌, ◌≡◌, refl, sym, ap,
  ◌∙◌, arith,
}
use librawatch.Shared.Product.{normalize_product_code}
use librawatch.Shared.ProductCode.{normalize_product_code_idem}
use librawatch.Shared.CommandLine.{parse_quiet_uninstall_command}
use librawatch.Software.Inventory.{
  SoftwareItem, identity_key, InventoryRow, is_entry, find_entry, reconcile_software_inventory,
}
use librawatch.Software.Reconciliation.{reported, stamped, reconcile_software_inventory-entries}
use librawatch.Software.Uninstall.{
  Uninstall, is_winget_id, winget_payload, no_mechanism, supported, unsupported, classify_winget,
  classify_quiet, classify_code, classify_uninstall,
}
use librawatch.Software.Endpoint.{
  Snapshot, put_entries, replace_inventory_snapshot, PsResult, refused, run_structured_command,
  msiexec_arguments, uninstall_code, execute_msiexec_uninstall, is_current, start_parsed,
  execute_quiet_uninstall,
}

put_entries-reported :
    (entries : List SoftwareItem) (m : Snapshot) (key : Text)
    → put_entries entries m key ≡ coalesce (reported key entries) (m key)
unfolding put_entries reported
put_entries-reported [] m key = refl
put_entries-reported (e ∷ entries) m key = ground (
  arith,
  put_entries-reported entries (λ k. if text_eq (identity_key e) k then some e else m k) key,
)

snapshot-reported :
    (entries : List SoftwareItem) (key : Text)
    → replace_inventory_snapshot entries key ≡ reported key entries
unfolding replace_inventory_snapshot
snapshot-reported entries key = ground (arith, put_entries-reported entries (λ k. none) key)

module _ (end_of : Text → List Text → PsResult) (is_file : Text → Bool) where
  -- What an agent does with the job that a classification makes: it runs msiexec on the code; or
  -- it runs the program and the arguments that the command is read as, refusing only a program
  -- that is not there. A winget job is a command like any other.
  pub data IsHonoured (inventory : Snapshot) : Uninstall → Type 0 where
    by_code :
        (code : Text)
        → execute_msiexec_uninstall end_of code
          ≡ run_structured_command end_of (codes "msiexec.exe") (msiexec_arguments code)
        → IsHonoured inventory (supported (codes "A") (codes "msiexec_uninstall") code [])
    by_command :
        (payload key exe : Text) (arguments : List Text)
        → parse_quiet_uninstall_command payload ≡ some (exe, arguments)
        → execute_quiet_uninstall end_of is_file inventory payload key ≡ (
            if is_file exe
            then run_structured_command end_of exe arguments
            else refused (codes "uninstall unsupported: target executable not found"))
        → IsHonoured inventory (supported (codes "B") (codes "quiet_uninstall") payload key)
    by_winget :
        (payload : Text) → IsHonoured inventory (supported (codes "C") (codes "winget") payload [])
    not_offered : (reason : Text) → IsHonoured inventory (unsupported reason)

  winget-IsHonoured :
      (inventory : Snapshot) (row : InventoryRow) → IsHonoured inventory (classify_winget row)
  unfolding classify_winget
  winget-IsHonoured inventory row =
      if_rule (IsHonoured inventory)
        (not (text_eq row.item.winget_id []) && is_winget_id row.item.winget_id)
        (supported (codes "C") (codes "winget") (winget_payload row.item.winget_id) [])
        (unsupported no_mechanism) (λ _. by_winget (winget_payload row.item.winget_id))
        (λ _. not_offered no_mechanism)

  quiet_ran :
      (inventory : Snapshot) (row : InventoryRow) (exe : Text) (arguments : List Text)
      → inventory row.identity_key ≡ some row.item
      → text_eq row.item.quiet_uninstall_string [] ≡ false
      → parse_quiet_uninstall_command row.item.quiet_uninstall_string ≡ some (exe, arguments)
      → execute_quiet_uninstall end_of is_file inventory row.item.quiet_uninstall_string
          row.identity_key
        ≡ (if is_file exe
            then run_structured_command end_of exe arguments
            else refused (codes "uninstall unsupported: target executable not found"))
  unfolding execute_quiet_uninstall is_current start_parsed
  quiet_ran inventory row exe arguments known given parsed =
      rw (known, given, text_eq_refl row.item.quiet_uninstall_string, parsed) refl

  quiet-IsHonoured :
      (inventory : Snapshot) (row : InventoryRow)
      → inventory row.identity_key ≡ some row.item
      → IsHonoured inventory (classify_quiet row)
  unfolding classify_quiet
  quiet-IsHonoured inventory row known =
      if_rule (IsHonoured inventory)
        (not (text_eq row.item.quiet_uninstall_string [])
          && is_some (parse_quiet_uninstall_command row.item.quiet_uninstall_string))
        _ _
        (λ e.
          offered (ground arith) (parse_quiet_uninstall_command row.item.quiet_uninstall_string)
            refl (ground arith))
        (λ e. winget-IsHonoured inventory row)
    where
      offered :
          text_eq row.item.quiet_uninstall_string [] ≡ false
          → (o : Option (Text × List Text))
          → parse_quiet_uninstall_command row.item.quiet_uninstall_string ≡ o
          → is_some o ≡ true
          → IsHonoured inventory (
              supported
                (codes "B")
                (codes "quiet_uninstall")
                row.item.quiet_uninstall_string
                row.identity_key)
      offered given none parsed h = cc
      offered given (some (exe, arguments)) parsed h =
          by_command row.item.quiet_uninstall_string row.identity_key exe arguments parsed
            (quiet_ran inventory row exe arguments known given parsed)

  code-IsHonoured :
      (inventory : Snapshot) (row : InventoryRow) (raw : Text)
      → inventory row.identity_key ≡ some row.item
      → IsHonoured inventory (classify_code row (normalize_product_code raw))
  code-IsHonoured inventory row raw known = split (normalize_product_code raw) refl
    where
      split :
          (o : Option Text)
          → normalize_product_code raw ≡ o
          → IsHonoured inventory (classify_code row o)
      split none e = unfold classify_code in quiet-IsHonoured inventory row known
      split (some guid) e =
          unfold classify_code in
          by_code guid (
            unfold execute_msiexec_uninstall uninstall_code in
            rw (normalize_product_code_idem raw e) refl)

  classified-IsHonoured :
      (inventory : Snapshot) (row : InventoryRow)
      → inventory row.identity_key ≡ some row.item
      → IsHonoured inventory (classify_uninstall row)
  unfolding classify_uninstall
  classified-IsHonoured inventory row known =
      if_rule (IsHonoured inventory) row.item.windows_installer _ _
        (λ _. code-IsHonoured inventory row row.item.product_code known)
        (λ _. quiet-IsHonoured inventory row known)

-- The row that a reconciliation leaves for a key has the key, and the item that was reported.
stamped_row :
    (now : ℕ) (agent key : Text) (old : Option InventoryRow) (o : Option SoftwareItem)
    (row : InventoryRow)
    → ((r : InventoryRow) → old ≡ some r → r.identity_key ≡ key)
    → stamped now agent key old o ≡ some row
    → (row.identity_key ≡ key) × (o ≡ some row.item)
stamped_row now agent key none none row keyed h = cc
stamped_row now agent key (some r) none row keyed h = cc
stamped_row now agent key none (some i) row keyed h = ground arith
stamped_row now agent key (some r) (some i) row keyed h = ground (arith, keyed r refl)

find_entry-key :
    (agent key : Text) (rows : List InventoryRow) (r : InventoryRow)
    → find_entry agent key rows ≡ some r
    → r.identity_key ≡ key
unfolding find_entry is_entry
find_entry-key agent key rows r h =
    let passes : is_entry agent key r ≡ true = find-passes (is_entry agent key) rows h in
    ground (arith, text_eq_iff r.identity_key key)

-- After the server has folded in a snapshot of an agent, what it offers for a row of that agent
-- is honoured by the agent with the same snapshot: no job is refused as stale or as invalid. The
-- msiexec job runs msiexec on the row's code, and the quiet job runs exactly the program and the
-- arguments of the row's command, unless the program is not a file of the agent.
pub classify_uninstall-IsHonoured :
    (end_of : Text → List Text → PsResult) (is_file : Text → Bool) (now : ℕ) (agent key : Text)
    (items : List SoftwareItem) (rows : List InventoryRow) (row : InventoryRow)
    → find_entry agent key (reconcile_software_inventory now agent items rows) ≡ some row
    → IsHonoured end_of is_file (replace_inventory_snapshot items) (classify_uninstall row)
classify_uninstall-IsHonoured end_of is_file now agent key items rows row found =
    classified-IsHonoured end_of is_file (replace_inventory_snapshot items) row
      (snapshot-reported items row.identity_key ∙ ap (λ k. reported k items) both.0 ∙ both.1)
  where
    both : (row.identity_key ≡ key) × (reported key items ≡ some row.item)
    both =
        stamped_row now agent key (find_entry agent key rows) (reported key items) row
          (λ r e. find_entry-key agent key rows r e)
          (sym (
              rw (text_eq_refl agent) at
                (reconcile_software_inventory-entries now agent agent key items rows))
            ∙ found)
