-- ===== src/Catalog/Record.antt =====
-- What EventRecorder of server/events.go does with an event, with InsertEvent of server/db.go,
-- FireTamperAlert of server/alert.go and handleEvent of server/hub.go. The time of day in the text of
-- an alert is an argument.
use librawatch.Common.{
  ◌&&◌, any, ℕ, Text, codes, text_eq, Bool, true, false, not, ◌||◌, if◌then◌else◌, Option, none,
  some, List, [], ◌∷◌, ◌++◌,
}
use librawatch.Policy.Match.{Decision}
use librawatch.Deploy.Dispatch.{Server, send_to_agent}
use librawatch.Alert.Metrics.{Alerter, fire}
use librawatch.Catalog.Applications.{upsert_application_by_product}
use librawatch.Catalog.Events.{
  AgentEvent, Recorder, delete_file_message, event_decision, field, format_event_message, is_type,
  notify,
}

abbrev pub log_action : Text
log_action = codes "log"

abbrev pub deleted_action : Text
deleted_action = codes "deleted"

-- A message that could not be handed over leaves the event logged only.
unfoldable pub deleted_or_logged : AgentEvent → Text → Recorder → Server × Bool → Recorder × Text
unfolding notify
deleted_or_logged e path r (server, false) = (record r { server = server }, log_action)
deleted_or_logged e path r (server, true) = (
  notify
      ((codes "🗑" ++ 65039 ∷ codes " File dihapus otomatis di ")
        ++ (e.hostname ++ (codes ": " ++ path)))
      (record r { server = server }),
  deleted_action,
)

unfoldable pub delete_downloaded : AgentEvent → Text → Recorder → Recorder × Text
unfolding deleted_or_logged send_to_agent text_eq
delete_downloaded e path r =
    if not (is_type (codes "download_created") e) || text_eq path []
    then (r, log_action)
    else deleted_or_logged e path r (send_to_agent e.agent_id (delete_file_message path) r.server)

unfoldable pub act : AgentEvent → Decision → Recorder → Recorder × Text
unfolding notify format_event_message delete_downloaded text_eq
act e d r =
    if text_eq d.action (codes "notify")
    then (notify (format_event_message e) r, codes "notify")
    else if text_eq d.action (codes "delete")
    then delete_downloaded e (field (codes "path") e) r
    else if text_eq d.action (codes "block")
    then (notify (format_event_message e) r, codes "blocked")
    else (r, log_action)

-- The foreign key of the tables events and alerts.
unfoldable pub is_registered : Text → Recorder → Bool
unfolding any text_eq
is_registered agent r = any (text_eq agent) r.server.agents

unfoldable pub insert_event : ℕ → AgentEvent → Recorder × Text → Recorder
unfolding is_registered
insert_event now e (r, action) = record r {
  events =
      if not (is_registered e.agent_id r)
      then r.events
      else r.events
        ++ record {
          agent_id = e.agent_id;
          type = e.type;
          metadata = e.metadata.json;
          action = action;
          created_at = now;
        }
          ∷ [];
}

unfoldable pub integrate_catalog : ℕ → AgentEvent → Recorder → Recorder
unfolding upsert_application_by_product text_eq
integrate_catalog now e r = record r {
  catalog =
      if text_eq (field (codes "display_name") e) []
      then r.catalog
      else upsert_application_by_product now (field (codes "display_name") e)
          (field (codes "publisher") e)
          (record {
            product_name = [];
            description = [];
            product_version = field (codes "version") e;
            sha256 = [];
          })
          r.catalog;
}

unfoldable pub tamper_label : Text → Text
unfolding text_eq
tamper_label class =
    if text_eq class (codes "keyboard")
    then codes "Keyboard"
    else if text_eq class (codes "pointing_device")
    then codes "Mouse"
    else codes "Perangkat"

unfoldable pub fire_tamper_alert : ℕ → Text → AgentEvent → Alerter → Alerter
unfolding fire tamper_label
fire_tamper_alert now clock e s =
    fire now e.agent_id (codes "peripheral_removed")
      (codes "🚨 "
        ++ (tamper_label (field (codes "device_class") e)
            ++ (codes " terlepas di "
                ++ (e.hostname
                    ++ (codes ": "
                        ++ (field (codes "device_name") e
                            ++ (codes " — " ++ (clock ++ codes " WIB"))))))))
      s

abbrev pub map_alerter : (Alerter → Alerter) → Option Alerter → Option Alerter
map_alerter f none = none
map_alerter f (some s) = some (f s)

unfoldable pub follow_up : ℕ → Text → AgentEvent → Recorder → Recorder
unfolding integrate_catalog fire_tamper_alert is_registered text_eq
follow_up now clock e r =
    let r' =
      if is_type (codes "software_installed") e || is_type (codes "software_updated") e
      then integrate_catalog now e r
      else r in
    if is_type (codes "peripheral_removed") e && is_registered e.agent_id r
    then record r' { alerter = map_alerter (fire_tamper_alert now clock e) r'.alerter }
    else r'

unfoldable pub record_event : ℕ → Text → AgentEvent → Recorder → Recorder
unfolding event_decision act insert_event follow_up
record_event now clock e r =
    follow_up now clock e (insert_event now e (act e (event_decision r.engine e) r))

-- What comes from an agent, and when.
pub record Arrival : Type 0 where
  pub now : ℕ
  pub clock : Text
  pub event : AgentEvent

-- handleEvent, where the connection or the message names the agent.
unfoldable pub handle_event : Arrival → Recorder → Recorder
unfolding record_event text_eq
handle_event a r =
    if text_eq a.event.agent_id [] || text_eq a.event.type []
    then r
    else record_event a.now a.clock a.event r

unfoldable pub handle_events : List Arrival → Recorder → Recorder
unfolding handle_event
handle_events [] r = r
handle_events (a ∷ arrivals) r = handle_events arrivals (handle_event a r)
