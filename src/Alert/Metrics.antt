-- ===== src/Alert/Metrics.antt =====
-- CheckMetrics of server/alert.go with the alert queries of server/db.go. That a value is over its
-- threshold, the texts of the messages and SQLite's LIKE are arguments. The latest row of the
-- table comes first.
use librawatch.Common.{
  ℕ, ◌+◌, ◌-◌, Text, codes, text_eq, equal_fold, any, Bool, true, ◌&&◌, leb, ltb, if◌then◌else◌,
  Option, none, some, List, [], ◌∷◌, ◌++◌,
}

abbrev pub cpu_ram_cooldown : ℕ
cpu_ram_cooldown = 1800

abbrev pub blacklist_cooldown : ℕ
blacklist_cooldown = 3600

abbrev pub consecutive_required : ℕ
consecutive_required = 3

pub record AlertRow : Type 0 where
  pub agent_id : Text
  pub type : Text
  pub message : Text
  pub sent_at : ℕ

-- `kills` are the processes that autoKill was started for.
pub record Alerter : Type 0 where
  pub alerts : List AlertRow
  pub consecutive : Text → ℕ
  pub kills : List (Text × Text)

unfoldable pub is_alert : Text → Text → AlertRow → Bool
unfolding text_eq
is_alert agent type a = text_eq a.agent_id agent && text_eq a.type type

abbrev pub newer : AlertRow → Option AlertRow → AlertRow
newer a none = a
newer a (some b) = if ltb a.sent_at b.sent_at then b else a

-- ORDER BY sent_at DESC LIMIT 1
unfoldable pub latest : (AlertRow → Bool) → List AlertRow → Option AlertRow
latest p [] = none
latest p (a ∷ rows) = let rest = latest p rows in if p a then some (newer a rest) else rest

unfoldable pub get_last_alert : Text → Text → Alerter → Option AlertRow
unfolding latest is_alert
get_last_alert agent type s = latest (is_alert agent type) s.alerts

unfoldable pub get_last_alert_for_app :
    (Text → Text → Bool) → Text → Text → Alerter → Option AlertRow
unfolding latest is_alert
get_last_alert_for_app like agent app s =
    latest (λ a. is_alert agent (codes "blacklisted_app") a && like app a.message) s.alerts

unfoldable pub has_cooled : ℕ → ℕ → Option AlertRow → Bool
has_cooled now cooldown none = true
has_cooled now cooldown (some a) = leb cooldown (now - a.sent_at)

unfoldable pub counter_key : Text → Text → Text
counter_key agent kind = agent ++ (codes ":" ++ kind)

unfoldable pub set_consecutive : Text → Text → ℕ → Alerter → Alerter
unfolding text_eq counter_key
set_consecutive agent kind n s = record s {
  consecutive = λ x. if text_eq x (counter_key agent kind) then n else s.consecutive x;
}

unfoldable pub fire : ℕ → Text → Text → Text → Alerter → Alerter
fire now agent type message s = record s {
  alerts = record { agent_id = agent; type = type; message = message; sent_at = now } ∷ s.alerts;
}

unfoldable pub fire_if_cooled : ℕ → Text → Text → Text → Text → Alerter → Alerter
unfolding get_last_alert has_cooled set_consecutive fire
fire_if_cooled now agent kind type message s =
    if has_cooled now cpu_ram_cooldown (get_last_alert agent type s)
    then set_consecutive agent kind 0 (fire now agent type message s)
    else s

-- One threshold: its counter, its type of alert, and whether the value is over it.
unfoldable pub check_threshold : ℕ → Text → Text → Text → Text → Bool → Alerter → Alerter
unfolding fire_if_cooled set_consecutive counter_key
check_threshold now agent kind type message over s =
    let n = s.consecutive (counter_key agent kind) + 1 in
    let counted = set_consecutive agent kind n s in
    if over
    then (if leb consecutive_required n
        then fire_if_cooled now agent kind type message counted
        else counted)
    else set_consecutive agent kind 0 s

-- A process, and the text of an alert about it.
pub record Observed : Type 0 where
  pub name : Text
  pub message : Text

unfoldable pub auto_kill : Bool → Text → Text → Alerter → Alerter
auto_kill on agent name s = record s {
  kills = if on then s.kills ++ (agent, name) ∷ [] else s.kills;
}

unfoldable pub report_blacklisted : (Text → Text → Bool) → ℕ → Text → Observed → Alerter → Alerter
unfolding has_cooled get_last_alert_for_app fire
report_blacklisted like now agent p s =
    if has_cooled now blacklist_cooldown (get_last_alert_for_app like agent p.name s)
    then fire now agent (codes "blacklisted_app") p.message s
    else s

unfoldable pub check_process :
    (Text → Text → Bool) → ℕ → Text → List Text → Bool → Observed → Alerter → Alerter
unfolding any equal_fold auto_kill report_blacklisted
check_process like now agent blacklist on p s =
    if any (λ b. equal_fold p.name b) blacklist
    then auto_kill on agent p.name (report_blacklisted like now agent p s)
    else s

unfoldable pub check_processes :
    (Text → Text → Bool) → ℕ → Text → List Text → Bool → List Observed → Alerter → Alerter
unfolding check_process
check_processes like now agent blacklist on [] s = s
check_processes like now agent blacklist on (p ∷ ps) s =
    check_processes like now agent blacklist on ps (check_process like now agent blacklist on p s)

-- A metrics message.
pub record Sample : Type 0 where
  pub time : ℕ
  pub agent_id : Text
  pub cpu_over : Bool
  pub ram_over : Bool
  pub cpu_message : Text
  pub ram_message : Text
  pub blacklist : List Text
  pub auto_kill_enabled : Bool
  pub processes : List Observed

unfoldable pub check_metrics : (Text → Text → Bool) → Sample → Alerter → Alerter
unfolding check_threshold check_processes
check_metrics like m s =
    check_processes like m.time m.agent_id m.blacklist m.auto_kill_enabled m.processes (
      check_threshold m.time m.agent_id (codes "ram") (codes "ram_high") m.ram_message m.ram_over (
        check_threshold m.time m.agent_id (codes "cpu") (codes "cpu_high") m.cpu_message m.cpu_over
          s))

unfoldable pub check_all : (Text → Text → Bool) → List Sample → Alerter → Alerter
unfolding check_metrics
check_all like [] s = s
check_all like (m ∷ ms) s = check_all like ms (check_metrics like m s)
