-- ===== src/Catalog/Deletion.antt =====
-- That what is recorded as deleted was sent.
use librawatch.Common.{
  ◌++◌, All, ℕ, ◌+◌, Text, codes, text_eq, Bool, true, false, not, ◌||◌, if◌then◌else◌, if_rule,
  List, [], ◌∷◌, count_where, count_where-append, ◌≡◌, refl, ap, arith,
}
use librawatch.Policy.Match.{Decision}
use librawatch.Policy.Ranking.{one_if}
use librawatch.Deploy.Dispatch.{Message, Client, send_to, send_to_agent}
use librawatch.Catalog.Events.{
  AgentEvent, EventRow, Recorder, is_type, field, event_decision, delete_file_message,
  format_event_message, notify,
}
use librawatch.Catalog.Record.{
  is_registered, Arrival, deleted_action, log_action, integrate_catalog, deleted_or_logged,
  delete_downloaded, act, insert_event, follow_up, record_event, handle_event, handle_events,
}

-- The messages of a kind that wait in the send channels.
unfoldable pub waiting : (Message → Bool) → List Client → ℕ
unfolding count_where
waiting p [] = 0
waiting p (c ∷ cs) = count_where p c.send + waiting p cs

waiting-send_to :
    (p : Message → Bool) (agent : Text) (m : Message) (cs : List Client)
    → waiting p (send_to agent m cs).0
      ≡ waiting p cs + (if (send_to agent m cs).1 then one_if (p m) else 0)
unfolding waiting send_to count_where
waiting-send_to p agent m [] = refl
waiting-send_to p agent m (c ∷ cs) =
    ground (arith, waiting-send_to p agent m cs, count_where-append p c.send (m ∷ []))

unfoldable pub is_deletion : Message → Bool
unfolding text_eq
is_deletion m = text_eq m.type (codes "delete_file")

abbrev pub deletions_sent : Recorder → ℕ
deletions_sent r = waiting is_deletion r.server.clients

unfoldable pub is_deleted : EventRow → Bool
unfolding text_eq
is_deleted row = text_eq row.action deleted_action

abbrev pub deletions_recorded : Recorder → ℕ
deletions_recorded r = count_where is_deleted r.events

abbrev IsCounted : Recorder → Recorder × Text → Type 0
IsCounted r (r', action) =
    (deletions_sent r' ≡ deletions_sent r + one_if (text_eq action deleted_action))
    × (r'.events ≡ r.events)
    × (r'.server.agents ≡ r.server.agents)

deleted_or_logged-IsCounted :
    (e : AgentEvent) (path : Text) (r : Recorder)
    → IsCounted r
        (deleted_or_logged e path r (send_to_agent e.agent_id (delete_file_message path) r.server))
unfolding send_to_agent
deleted_or_logged-IsCounted e path r =
    split (send_to e.agent_id (delete_file_message path) r.server.clients)
      (waiting-send_to is_deletion e.agent_id (delete_file_message path) r.server.clients)
  where
    split :
        (x : List Client × Bool)
        → waiting is_deletion x.0
          ≡ deletions_sent r + (if x.1 then one_if (is_deletion (delete_file_message path)) else 0)
        → IsCounted r (deleted_or_logged e path r (record r.server { clients = x.0 }, x.1))
    split (cs, true) h =
        unfold deleted_or_logged notify text_eq in ((unfold is_deletion in h), refl, refl)
    split (cs, false) h = unfold deleted_or_logged text_eq in (h, refl, refl)

-- An action that is not a deletion sends nothing, whatever it notifies.
kept-IsCounted :
    (r : Recorder) (notified : List Text) (action : Text)
    → text_eq action deleted_action ≡ false
    → IsCounted r (record r { notified = notified }, action)
kept-IsCounted r notified action n = (rw n none_sent, refl, refl)
  where
    none_sent : deletions_sent r ≡ deletions_sent r + 0
    none_sent = omega arith

logged-IsCounted : (r : Recorder) → IsCounted r (r, log_action)
unfolding text_eq
logged-IsCounted r = kept-IsCounted r r.notified log_action refl

delete_downloaded-IsCounted :
    (e : AgentEvent) (path : Text) (r : Recorder) → IsCounted r (delete_downloaded e path r)
unfolding delete_downloaded
delete_downloaded-IsCounted e path r =
    if_rule (IsCounted r) (not (is_type (codes "download_created") e) || text_eq path []) _ _
      (λ _. logged-IsCounted r) (λ _. deleted_or_logged-IsCounted e path r)

told-IsCounted :
    (r : Recorder) (message action : Text)
    → text_eq action deleted_action ≡ false
    → IsCounted r (notify message r, action)
unfolding notify
told-IsCounted r message action n = kept-IsCounted r (notify message r).notified action n

act-IsCounted : (e : AgentEvent) (d : Decision) (r : Recorder) → IsCounted r (act e d r)
unfolding act
act-IsCounted e d r =
    if_rule (IsCounted r) (text_eq d.action (codes "notify")) _ _
      (λ _. told-IsCounted r (format_event_message e) (codes "notify") (unfold text_eq in refl))
      (λ _.
        if_rule (IsCounted r) (text_eq d.action (codes "delete")) _ _
          (λ _. delete_downloaded-IsCounted e (field (codes "path") e) r)
          (λ _.
            if_rule (IsCounted r) (text_eq d.action (codes "block")) _ _
              (λ _.
                told-IsCounted r (format_event_message e) (codes "blocked")
                  (unfold text_eq in refl))
              (λ _. logged-IsCounted r)))

pub server-follow_up :
    (now : ℕ) (clock : Text) (e : AgentEvent) (r : Recorder)
    → ((follow_up now clock e r).server ≡ r.server) × ((follow_up now clock e r).events ≡ r.events)
unfolding follow_up integrate_catalog
server-follow_up now clock e r = (ground arith, ground arith)

abbrev pub IsBalanced : Recorder → Recorder → Type 0
IsBalanced r r' =
    deletions_sent r' + deletions_recorded r ≡ deletions_sent r + deletions_recorded r'

-- Balanced, with the same agents.
abbrev IsStep : Recorder → Recorder → Type 0
IsStep r r' = IsBalanced r r' × (r'.server.agents ≡ r.server.agents)

same-IsStep :
    (r r' r'' : Recorder)
    → r''.server ≡ r'.server
    → r''.events ≡ r'.events
    → IsStep r r'
    → IsStep r r''
same-IsStep r r' r'' s e (b, a) = (rw (s, e) b, rw s a)

insert_event-IsStep :
    (now : ℕ) (e : AgentEvent) (r : Recorder) (x : Recorder × Text)
    → is_registered e.agent_id r ≡ true
    → IsCounted r x
    → IsStep r (insert_event now e x)
unfolding insert_event
insert_event-IsStep now e r (r', action) known (sent, events, agents) =
    (rw registered balanced, agents)
  where
    registered : is_registered e.agent_id r' ≡ true
    registered = unfold is_registered in rw agents (unfold is_registered in known)

    row : EventRow
    row = record {
      agent_id = e.agent_id;
      type = e.type;
      metadata = e.metadata.json;
      action = action;
      created_at = now;
    }

    one_or_none : (b : Bool) → one_if b ≡ (if b then 1 else 0)
    one_or_none true = refl
    one_or_none false = refl

    balanced :
        deletions_sent r' + deletions_recorded r
        ≡ deletions_sent r + count_where is_deleted (r'.events ++ row ∷ [])
    balanced =
        unfold is_deleted count_where in
        omega (
          arith,
          sent,
          ap (count_where is_deleted) events,
          count_where-append is_deleted r'.events (row ∷ []),
          one_or_none (text_eq action deleted_action),
        )

record_event-IsStep :
    (now : ℕ) (clock : Text) (e : AgentEvent) (r : Recorder)
    → is_registered e.agent_id r ≡ true
    → IsStep r (record_event now clock e r)
unfolding record_event
record_event-IsStep now clock e r known =
    let x = act e (event_decision r.engine e) r in
    let (s, v) = server-follow_up now clock e (insert_event now e x) in
    same-IsStep r (insert_event now e x) (follow_up now clock e (insert_event now e x)) s v
      (insert_event-IsStep now e r x known (act-IsCounted e (event_decision r.engine e) r))

handle_event-IsStep :
    (a : Arrival) (r : Recorder)
    → is_registered a.event.agent_id r ≡ true
    → IsStep r (handle_event a r)
unfolding handle_event
handle_event-IsStep a r known =
    if_rule (IsStep r) (text_eq a.event.agent_id [] || text_eq a.event.type []) _ _
      (λ _. (refl, refl)) (λ _. record_event-IsStep a.now a.clock a.event r known)

-- The agent of an event is in the table agents.
abbrev pub IsFromRegistered : Recorder → Arrival → Type 0
IsFromRegistered r a = is_registered a.event.agent_id r ≡ true

-- Whatever events come from agents that are in the table agents, in whatever order, as many rows
-- are added that say that a file was deleted as messages to delete a file are put into the send
-- channels.
pub handle_events-IsBalanced :
    (arrivals : List Arrival) (r : Recorder)
    → All (IsFromRegistered r) arrivals
    → IsBalanced r (handle_events arrivals r)
unfolding handle_events
handle_events-IsBalanced [] r known = refl
handle_events-IsBalanced (a ∷ arrivals) r (k, known) =
    let (b, agents) = handle_event-IsStep a r k in
    omega (
      arith,
      b,
      handle_events-IsBalanced arrivals (handle_event a r)
          (still_known (handle_event a r) arrivals agents known),
    )
  where
    still_known :
        (r' : Recorder) (xs : List Arrival)
        → r'.server.agents ≡ r.server.agents
        → All (IsFromRegistered r) xs
        → All (IsFromRegistered r') xs
    still_known r' [] e h = tt
    still_known r' (x ∷ xs) e (h, hs) =
        ((unfold is_registered in rw e (unfold is_registered in h)), still_known r' xs e hs)
