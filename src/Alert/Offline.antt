-- ===== src/Alert/Offline.antt =====
-- checkOfflineAgents of server/alert.go. The setting is in minutes.
use librawatch.Common.{
  ℕ, ◌-◌, ◌*◌, Text, codes, text_eq, Bool, false, not, ◌||◌, ltb, if◌then◌else◌, Option, none, some,
  List, [], ◌∷◌,
}
use librawatch.Alert.Metrics.{AlertRow, Alerter, get_last_alert, fire}

pub record AgentStatus : Type 0 where
  pub id : Text
  pub status : Text
  pub last_seen : ℕ
  pub message : Text

abbrev pub is_after : ℕ → Option AlertRow → Bool
is_after last_seen none = false
is_after last_seen (some a) = ltb last_seen a.sent_at

unfoldable pub check_offline_agent : ℕ → ℕ → AgentStatus → Alerter → Alerter
unfolding get_last_alert fire text_eq
check_offline_agent now offline_minutes a s =
    if not (text_eq a.status (codes "offline"))
      || not (ltb a.last_seen (now - offline_minutes * 60))
    then s
    else if is_after a.last_seen (get_last_alert a.id (codes "offline") s)
    then s
    else fire now a.id (codes "offline") a.message s

unfoldable pub check_offline_agents : ℕ → ℕ → List AgentStatus → Alerter → Alerter
unfolding check_offline_agent
check_offline_agents now offline_minutes [] s = s
check_offline_agents now offline_minutes (a ∷ agents) s =
    check_offline_agents now offline_minutes agents (check_offline_agent now offline_minutes a s)
