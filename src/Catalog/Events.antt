-- ===== src/Catalog/Events.antt =====
-- The events of agents in server/events.go: what is decided on them and sent. The JSON text of the
-- metadata is part of an event, and so is the hostname that the table agents has.
use librawatch.Common.{
  ℕ, Text, codes, text_eq, Bool, ◌||◌, is_some, if◌then◌else◌, Option, none, some, List, [], ◌∷◌,
  ◌++◌,
}
use librawatch.Policy.Match.{Context, Decision, evaluate}
use librawatch.Policy.Server.{Engine, get_enabled_policy_rules}
use librawatch.Deploy.Dispatch.{Message, Server, text_or_empty}
use librawatch.Alert.Metrics.{Alerter}
use librawatch.Catalog.Applications.{CatalogDb}

-- `text_at` is what a key of the metadata holds, where that is a string.
pub record Metadata : Type 0 where
  pub text_at : Text → Option Text
  pub json : Text

pub record AgentEvent : Type 0 where
  pub agent_id : Text
  pub hostname : Text
  pub type : Text
  pub metadata : Metadata

pub record EventRow : Type 0 where
  pub agent_id : Text
  pub type : Text
  pub metadata : Text
  pub action : Text
  pub created_at : ℕ

-- What the recorder reaches: `notified` are the texts given to NotifyEvent.
pub record Recorder : Type 0 where
  pub server : Server
  pub engine : Engine
  pub catalog : CatalogDb
  pub alerter : Option Alerter
  pub events : List EventRow
  pub notified : List Text

abbrev pub is_type : Text → AgentEvent → Bool
is_type name e = text_eq e.type name

abbrev pub field : Text → AgentEvent → Text
field key e = text_or_empty (e.metadata.text_at key)

unfoldable pub location_or_usb : AgentEvent → Option Text → Text
unfolding text_eq
location_or_usb e (some loc) = loc
location_or_usb e none =
    if is_type (codes "usb_inserted") e || is_type (codes "usb_removed") e then codes "usb" else []

unfoldable pub event_context : Engine → AgentEvent → Context
unfolding location_or_usb
event_context engine e = record {
  agent_id = e.agent_id;
  device_group = engine.device_group e.agent_id;
  event_type = e.type;
  category_id = none;
  app_status = [];
  file_extension = field (codes "extension") e;
  execution_location = location_or_usb e (e.metadata.text_at (codes "location"));
}

unfoldable pub event_decision : Engine → AgentEvent → Decision
unfolding evaluate get_enabled_policy_rules event_context
event_decision engine e = evaluate (get_enabled_policy_rules engine) (event_context engine e)

unfoldable pub notify : Text → Recorder → Recorder
notify message r = record r {
  notified = if is_some r.alerter then r.notified ++ message ∷ [] else r.notified;
}

abbrev pub event_labels : List (Text × Text)
event_labels =
    (codes "usb_inserted", codes "🔌 USB terpasang")
    ∷ (codes "usb_removed", codes "🔌 USB dilepas")
    ∷ (codes "peripheral_connected", (codes "🖱" ++ 65039 ∷ codes " Perangkat terpasang"))
    ∷ (codes "peripheral_removed", (codes "🖱" ++ 65039 ∷ codes " Perangkat terlepas"))
    ∷ (codes "download_created", (codes "⬇" ++ 65039 ∷ codes " File baru di folder terpantau"))
    ∷ (codes "wallpaper_changed", (codes "🖼" ++ 65039 ∷ codes " Wallpaper diubah"))
    ∷ (codes "theme_changed", codes "🎨 Tema diubah")
    ∷ (codes "config_changed", (codes "⚙" ++ 65039 ∷ codes " Konfigurasi Windows berubah"))
    ∷ (codes "software_installed", codes "📦 Software terinstall")
    ∷ (codes "software_removed", codes "📦 Software dihapus")
    ∷ (codes "software_updated", codes "📦 Software diperbarui")
    ∷ []

unfoldable pub label_of : List (Text × Text) → Text → Text
unfolding text_eq
label_of [] type = type
label_of ((t, label) ∷ rest) type = if text_eq t type then label else label_of rest type

unfoldable pub format_event_message : AgentEvent → Text
unfolding label_of
format_event_message e =
    label_of event_labels e.type ++ (codes " — " ++ (e.hostname ++ (codes "\n" ++ e.metadata.json)))

abbrev pub delete_file_message : Text → Message
delete_file_message path = record {
  type = codes "delete_file";
  job_id = [];
  attempt = none;
  payload = [];
  filename = [];
  checksum = [];
  args = [];
  action = [];
  password = [];
  path = path;
  expire_at = none;
}
