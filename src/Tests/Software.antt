-- ===== src/Tests/Software.antt =====
-- The theorems on the software inventory at a concrete snapshot.
use librawatch.Common.{
  Text, codes, text_eq, trim_space, any, find, filter, map_where, true, false, if◌then◌else◌, some,
  List, [], ◌∷◌, ◌≡◌, refl,
}
use librawatch.Common.Int.{pos}
use librawatch.Shared.Product.{normalize_product_code}
use librawatch.Software.Inventory.{
  SoftwareItem, InventoryRow, identity_key, find_entry, new_entry, reconcile_software_inventory,
}
use librawatch.Software.Reconciliation.{reported, stamped, reconcile_software_inventory-entries}
use librawatch.Software.Uninstall.{supported, classify_uninstall, winget_payload}
use librawatch.Software.Gate.{Passes, classify_uninstall-Passes}
use librawatch.Software.Endpoint.{PsResult, replace_inventory_snapshot}
use librawatch.Software.Honour.{IsHonoured, classify_uninstall-IsHonoured}

abbrev editor : SoftwareItem
editor = record {
  display_name = codes "Edit";
  publisher = codes "P";
  display_version = codes "1";
  install_date = [];
  windows_installer = false;
  product_code = [];
  uninstall_string = [];
  quiet_uninstall_string = codes "\"C:\\A\\un.exe\" /S";
  hive = codes "HKLM";
  arch = codes "x64";
  scope = codes "machine";
  winget_id = codes "P.Edit";
  winget_available_version = [];
}

abbrev reader : SoftwareItem
reader = record editor { display_name = codes "Read"; quiet_uninstall_string = [] }

abbrev old_rows : List InventoryRow
old_rows =
    new_entry 5 (codes "pc-1") (codes "np:edit|p") editor
    ∷ new_entry 6 (codes "pc-2") (codes "np:edit|p") editor
    ∷ []

abbrev snapshot : List SoftwareItem
snapshot = reader ∷ editor ∷ []

reconcile_software_inventory-entries_example :
    find_entry
      (codes "pc-1")
      (codes "np:edit|p")
      (reconcile_software_inventory 9 (codes "pc-1") snapshot old_rows)
    ≡ (if text_eq (codes "pc-1") (codes "pc-1")
        then stamped 9
            (codes "pc-1")
            (codes "np:edit|p")
            (find_entry (codes "pc-1") (codes "np:edit|p") old_rows)
            (reported (codes "np:edit|p") snapshot)
        else find_entry (codes "pc-1") (codes "np:edit|p") old_rows)
reconcile_software_inventory-entries_example =
    reconcile_software_inventory-entries 9 (codes "pc-1") (codes "pc-1") (codes "np:edit|p")
      snapshot old_rows

-- The row keeps the time at which it was first seen.
reconcile_test :
    find_entry
      (codes "pc-1")
      (codes "np:edit|p")
      (reconcile_software_inventory 9 (codes "pc-1") snapshot old_rows)
    ≡ some (record (new_entry 9 (codes "pc-1") (codes "np:edit|p") editor) { first_seen = 5 })
unfolding find_entry reconcile_software_inventory identity_key trim_space text_eq find filter any
    map_where
reconcile_test = refl

abbrev reader_row : InventoryRow
reader_row = new_entry 9 (codes "pc-1") (codes "np:read|p") reader

classify_uninstall-Passes_example : Passes (classify_uninstall reader_row)
unfolding text_eq
classify_uninstall-Passes_example = classify_uninstall-Passes reader_row refl

classify_test :
    classify_uninstall reader_row
    ≡ supported (codes "C") (codes "winget") (winget_payload (codes "P.Edit")) []
unfolding classify_uninstall text_eq any
classify_test = refl

normalize_test :
    normalize_product_code (codes " 0a1b2c3d-1111-2222-3333-444455556666}")
    ≡ some (codes "{0A1B2C3D-1111-2222-3333-444455556666}")
unfolding normalize_product_code
normalize_test = refl

abbrev ended : Text → List Text → PsResult
ended exe arguments = record {
  status = codes "success";
  output = [];
  exit_code = pos 0;
  duration_ms = pos 7;
}

abbrev editor_row : InventoryRow
editor_row = record (new_entry 9 (codes "pc-1") (codes "np:edit|p") editor) { first_seen = 5 }

classify_uninstall-IsHonoured_example :
    IsHonoured ended
      (λ p. true)
      (replace_inventory_snapshot snapshot)
      (classify_uninstall editor_row)
classify_uninstall-IsHonoured_example =
    classify_uninstall-IsHonoured ended (λ p. true) 9 (codes "pc-1") (codes "np:edit|p") snapshot
      old_rows editor_row reconcile_test
