-- ===== src/Software/Inventory.antt =====
-- The table software_inventory of server/software.go. A row holds the item's columns as one field.
use librawatch.Common.{
  ℕ, Text, text_eq, Bool, not, ◌&&◌, if◌then◌else◌, Option, List, [], ◌∷◌, ◌++◌, map, any, find,
  filter, map_where,
}
use librawatch.Shared.Product.{software_key}

-- SoftwareInventoryItem, and softwareEntry of the agent.
pub record SoftwareItem : Type 0 where
  pub display_name : Text
  pub publisher : Text
  pub display_version : Text
  pub install_date : Text
  pub windows_installer : Bool
  pub product_code : Text
  pub uninstall_string : Text
  pub quiet_uninstall_string : Text
  pub hive : Text
  pub arch : Text
  pub scope : Text
  pub winget_id : Text
  pub winget_available_version : Text

unfoldable pub identity_key : SoftwareItem → Text
unfolding software_key
identity_key i = software_key (record {
  windows_installer = i.windows_installer;
  product_code = i.product_code;
  display_name = i.display_name;
  publisher = i.publisher;
})

pub record InventoryRow : Type 0 where
  pub agent_id : Text
  pub identity_key : Text
  pub item : SoftwareItem
  pub first_seen : ℕ
  pub last_seen : ℕ

-- agent_id = ? AND identity_key = ?
unfoldable pub is_entry : Text → Text → InventoryRow → Bool
is_entry agent key r = text_eq r.agent_id agent && text_eq r.identity_key key

unfoldable pub find_entry : Text → Text → List InventoryRow → Option InventoryRow
unfolding is_entry
find_entry agent key rows = find (is_entry agent key) rows

-- DO UPDATE SET: every column but first_seen.
abbrev pub refreshed : ℕ → SoftwareItem → InventoryRow → InventoryRow
refreshed now i r = record r { item = i; last_seen = now }

abbrev pub new_entry : ℕ → Text → Text → SoftwareItem → InventoryRow
new_entry now agent key i = record {
  agent_id = agent;
  identity_key = key;
  item = i;
  first_seen = now;
  last_seen = now;
}

-- INSERT … ON CONFLICT(agent_id, identity_key) DO UPDATE.
unfoldable pub upsert_key : ℕ → Text → Text → SoftwareItem → List InventoryRow → List InventoryRow
unfolding is_entry
upsert_key now agent key i rows =
    if any (is_entry agent key) rows
    then map_where (is_entry agent key) (refreshed now i) rows
    else rows ++ new_entry now agent key i ∷ []

unfoldable pub upsert_all : ℕ → Text → List SoftwareItem → List InventoryRow → List InventoryRow
unfolding upsert_key
upsert_all now agent [] rows = rows
upsert_all now agent (i ∷ items) rows =
    upsert_all now agent items (upsert_key now agent (identity_key i) i rows)

-- DELETE … WHERE agent_id = ? AND identity_key NOT IN (…)
unfoldable pub is_absent : Text → List Text → InventoryRow → Bool
is_absent agent keys r = text_eq r.agent_id agent && not (any (text_eq r.identity_key) keys)

unfoldable pub delete_absent : Text → List Text → List InventoryRow → List InventoryRow
unfolding is_absent
delete_absent agent keys rows = filter (λ r. not (is_absent agent keys r)) rows

unfoldable pub reconcile_software_inventory :
    ℕ → Text → List SoftwareItem → List InventoryRow → List InventoryRow
unfolding upsert_all delete_absent
reconcile_software_inventory now agent items rows =
    delete_absent agent (map identity_key items) (upsert_all now agent items rows)
