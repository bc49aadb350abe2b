-- ===== src/Catalog/Sending.antt =====
-- When an event makes the server send a message, and which.
use librawatch.Common.{
  Text, codes, text_eq, text_eq_iff, Bool, true, false, not, ◌||◌, if_rule, [], All, ◌≡◌, refl, sym,
  subst, arith,
}
use mathlib.Core.List.{Memᴰ}
use librawatch.Policy.Match.{Rule, Decision}
use librawatch.Policy.Server.{Engine, get_enabled_policy_rules}
use librawatch.Policy.Ranking.{IsMatch}
use librawatch.Policy.Choice.{Yields, Decides, by_default, by_rule, evaluate-Decides}
use librawatch.Deploy.Dispatch.{Server, send_to_agent}
use librawatch.Catalog.Events.{
  AgentEvent, Recorder, is_type, field, event_context, event_decision, delete_file_message, notify,
}
use librawatch.Catalog.Record.{
  Arrival, deleted_or_logged, delete_downloaded, act, insert_event, record_event, handle_event,
}
use librawatch.Catalog.Deletion.{server-follow_up}

-- A rule that asks for the deletion, and that no other rule exceeds.
pub record Asks (engine : Engine) (e : AgentEvent) (rule : Rule) : Type 0 where
  pub is_enabled : Memᴰ rule (get_enabled_policy_rules engine)
  pub is_match : IsMatch rule (event_context engine e)
  pub is_delete : rule.action ≡ codes "delete"
  pub is_chosen :
      All
        (λ q. IsMatch q (event_context engine e) → Yields rule q)
        (get_enabled_policy_rules engine)

-- What an event does to the server: nothing, or the message that deletes the file it names.
pub data Sends (e : AgentEvent) (r : Recorder) : Server → Type 0 where
  nothing : Sends e r r.server
  deletion :
      (rule : Rule)
      → Asks r.engine e rule
      → e.type ≡ codes "download_created"
      → ¬ (field (codes "path") e ≡ [])
      → Sends e r
          (send_to_agent e.agent_id (delete_file_message (field (codes "path") e)) r.server).0

asked :
    (engine : Engine) (e : AgentEvent) (d : Decision)
    → Decides (get_enabled_policy_rules engine) (event_context engine e) d
    → d.action ≡ codes "delete"
    → (rule : Rule) × Asks engine e rule
asked engine e d (by_default none_matches) h = cc
asked engine e d (by_rule rule m h all) a =
    (rule, record { is_enabled = m; is_match = h; is_delete = a; is_chosen = all })

server-deleted_or_logged :
    (e : AgentEvent) (path : Text) (r : Recorder) (x : Server × Bool)
    → (deleted_or_logged e path r x).0.server ≡ x.0
unfolding deleted_or_logged notify
server-deleted_or_logged e path r (s, true) = refl
server-deleted_or_logged e path r (s, false) = refl

passed_guard :
    (e : AgentEvent) (path : Text)
    → not (is_type (codes "download_created") e) || text_eq path [] ≡ false
    → (e.type ≡ codes "download_created") × (¬ (path ≡ []))
passed_guard e path h = (
  ground (arith, text_eq_iff e.type (codes "download_created")),
  λ empty. ground (arith, text_eq_iff path []),
)

deletion-Sends :
    (e : AgentEvent) (r : Recorder)
    → Decides
        (get_enabled_policy_rules r.engine)
        (event_context r.engine e)
        (event_decision r.engine e)
    → (event_decision r.engine e).action ≡ codes "delete"
    → Sends e r (delete_downloaded e (field (codes "path") e) r).0.server
unfolding delete_downloaded
deletion-Sends e r d a =
    if_rule (λ (x : Recorder × Text). Sends e r x.0.server)
      (not (is_type (codes "download_created") e) || text_eq (field (codes "path") e) []) _ _
      (λ _. nothing)
      (λ n.
        subst (Sends e r)
          (sym (
            server-deleted_or_logged e (field (codes "path") e) r
              (send_to_agent e.agent_id (delete_file_message (field (codes "path") e)) r.server)))
          (let (rule, asks) = asked r.engine e (event_decision r.engine e) d a in
            deletion rule asks (passed_guard e (field (codes "path") e) n).0
              (passed_guard e (field (codes "path") e) n).1))

act-Sends :
    (e : AgentEvent) (r : Recorder) → Sends e r (act e (event_decision r.engine e) r).0.server
unfolding act notify
act-Sends e r =
    let d = event_decision r.engine e in
    if_rule (λ (x : Recorder × Text). Sends e r x.0.server) (text_eq d.action (codes "notify")) _ _
      (λ _. nothing)
      (λ _.
        if_rule (λ (x : Recorder × Text). Sends e r x.0.server) (text_eq d.action (codes "delete"))
          _ _
          (λ a.
            deletion-Sends e r
              (unfold event_decision in
                evaluate-Decides (get_enabled_policy_rules r.engine) (event_context r.engine e))
              ((text_eq_iff d.action (codes "delete")).0 a))
          (λ _.
            if_rule (λ (x : Recorder × Text). Sends e r x.0.server)
              (text_eq d.action (codes "block")) _ _ (λ _. nothing) (λ _. nothing)))

-- Whatever its metadata, an event puts at most one message into the send channels, and that one
-- asks the agent that reports it to delete the path that the event names, which is not empty: only
-- a download does, and only where an enabled rule that matches it says delete and no other enabled
-- rule that matches sets more dimensions, or as many with a lower ID.
pub handle_event-Sends : (a : Arrival) (r : Recorder) → Sends a.event r (handle_event a r).server
unfolding handle_event record_event insert_event
handle_event-Sends a r =
    let e = a.event in
    if_rule (λ (x : Recorder). Sends e r x.server) (text_eq e.agent_id [] || text_eq e.type []) _ _
      (λ _. nothing)
      (λ _.
        subst (Sends e r)
          (sym
            (server-follow_up a.now a.clock e
              (insert_event a.now e (act e (event_decision r.engine e) r))).0)
          (act-Sends e r))
