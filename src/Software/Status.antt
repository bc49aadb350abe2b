-- ===== src/Software/Status.antt =====
-- The update status of a row, and the rows of one software as one, of server/software.go.
use librawatch.Common.{
  ℕ, Text, codes, text_eq, Bool, true, false, not, ◌&&◌, ◌||◌, if◌then◌else◌, Option, none, some,
  List, [], ◌∷◌, ◌++◌, any, filter, length,
}
use librawatch.Common.Int.{ℤ, pos, ltb_ℤ}
use librawatch.Shared.Version.{compare_versions}
use librawatch.Software.Inventory.{SoftwareItem, InventoryRow}

abbrev pub is_behind : Option ℤ → Option Bool
is_behind none = none
is_behind (some c) = some (ltb_ℤ c (pos 0))

abbrev pub status_of_order : Option Bool → Text
status_of_order none = codes "unknown"
status_of_order (some true) = codes "update_available"
status_of_order (some false) = codes "up_to_date"

unfoldable pub compute_update_status : SoftwareItem → Text
unfolding text_eq compare_versions
compute_update_status i =
    if text_eq i.winget_id [] || text_eq i.winget_available_version []
    then codes "unknown"
    else status_of_order (is_behind (compare_versions i.display_version i.winget_available_version))

-- map[string]bool: the keys in the order in which they come.
unfoldable pub insert_key : Text → List Text → List Text
insert_key k set = if any (text_eq k) set then set else set ++ k ∷ []

unfoldable pub collapse_string_set : List Text → Text
collapse_string_set [] = []
collapse_string_set (v ∷ []) = v
collapse_string_set (v ∷ (w ∷ rest)) = codes "mixed"

-- A row with what querySoftwareInventoryRows computes for it.
pub record SoftwareRow : Type 0 where
  pub row : InventoryRow
  pub update_status : Text
  pub uninstall_supported : Bool

pub record SoftwareAggregate : Type 0 where
  pub identity_key : Text
  pub name : Text
  pub vendor : Text
  pub version : Text
  pub version_varies : Bool
  pub newest_update : Text
  pub install_type : Text
  pub update_status : Text
  pub platform : Text
  pub endpoint_count : ℕ
  pub any_uninstall_supported : Bool

-- What the loop over the rows of a group keeps.
pub record Group : Type 0 where
  pub versions : List Text
  pub install_types : List Text
  pub platforms : List Text
  pub statuses : List Text
  pub newest : Text
  pub supported : Bool

abbrev pub no_group : Group
no_group = record {
  versions = [];
  install_types = [];
  platforms = [];
  statuses = [];
  newest = [];
  supported = false;
}

abbrev pub is_true : Option Bool → Bool
is_true (some true) = true
is_true _ = false

unfoldable pub newer_update : Text → Text → Text
unfolding text_eq compare_versions
newer_update newest version =
    if text_eq version []
    then newest
    else if text_eq newest [] || is_true (is_behind (compare_versions newest version))
    then version
    else newest

unfoldable pub add_to_group : SoftwareRow → Group → Group
unfolding insert_key newer_update text_eq
add_to_group r g =
    let i = r.row.item in
    record {
      versions = insert_key i.display_version g.versions;
      install_types =
          insert_key (if i.windows_installer then codes "msi" else codes "exe") g.install_types;
      platforms = if text_eq i.arch [] then g.platforms else insert_key i.arch g.platforms;
      statuses = insert_key r.update_status g.statuses;
      newest = newer_update g.newest i.winget_available_version;
      supported = r.uninstall_supported || g.supported;
    }

unfoldable pub add_all : List SoftwareRow → Group → Group
unfolding add_to_group
add_all [] g = g
add_all (r ∷ rows) g = add_all rows (add_to_group r g)

abbrev pub version_or_varies : List Text → Text
version_or_varies (v ∷ []) = v
version_or_varies _ = codes "varies"

abbrev pub is_single : List Text → Bool
is_single (v ∷ []) = true
is_single _ = false

unfoldable pub group_status : List Text → Text
unfolding any text_eq
group_status statuses =
    if any (text_eq (codes "update_available")) statuses
    then codes "update_available"
    else if is_single statuses && any (text_eq (codes "up_to_date")) statuses
    then codes "up_to_date"
    else codes "unknown"

unfoldable pub summary : Text → SoftwareRow → ℕ → Group → SoftwareAggregate
unfolding collapse_string_set group_status
summary key r count g = record {
  identity_key = key;
  name = r.row.item.display_name;
  vendor = r.row.item.publisher;
  version = version_or_varies g.versions;
  version_varies = not (is_single g.versions);
  newest_update = g.newest;
  install_type = collapse_string_set g.install_types;
  update_status = group_status g.statuses;
  platform = collapse_string_set g.platforms;
  endpoint_count = count;
  any_uninstall_supported = g.supported;
}

-- None for no rows, which no group has.
unfoldable pub aggregate_one_software_group : Text → List SoftwareRow → Option SoftwareAggregate
unfolding summary add_all
aggregate_one_software_group key [] = none
aggregate_one_software_group key (r ∷ rows) =
    some (summary key r (length (r ∷ rows)) (add_all (r ∷ rows) no_group))

unfoldable pub keys_in_order : List SoftwareRow → List Text → List Text
unfolding insert_key
keys_in_order [] order = order
keys_in_order (r ∷ rows) order = keys_in_order rows (insert_key r.row.identity_key order)

unfoldable pub group_of : Text → List SoftwareRow → List SoftwareRow
group_of key rows = filter (λ r. text_eq r.row.identity_key key) rows

abbrev pub is_wanted : Text → Text → Bool
is_wanted wanted value = text_eq wanted [] || text_eq value wanted

unfoldable pub keep_wanted :
    Text → Text → Text → Option SoftwareAggregate → List SoftwareAggregate → List SoftwareAggregate
keep_wanted install_type update_status platform none rest = rest
keep_wanted install_type update_status platform (some a) rest =
    if is_wanted install_type a.install_type
      && (is_wanted update_status a.update_status && is_wanted platform a.platform)
    then a ∷ rest
    else rest

unfoldable pub aggregate_keys :
    Text → Text → Text → List SoftwareRow → List Text → List SoftwareAggregate
unfolding keep_wanted aggregate_one_software_group group_of
aggregate_keys install_type update_status platform rows [] = []
aggregate_keys install_type update_status platform rows (key ∷ keys) =
    keep_wanted install_type update_status platform
      (aggregate_one_software_group key (group_of key rows))
      (aggregate_keys install_type update_status platform rows keys)

unfoldable pub aggregate_software_rows :
    List SoftwareRow → Text → Text → Text → List SoftwareAggregate
unfolding aggregate_keys keys_in_order
aggregate_software_rows rows install_type update_status platform =
    aggregate_keys install_type update_status platform rows (keys_in_order rows [])
