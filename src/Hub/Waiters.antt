-- ===== src/Hub/Waiters.antt =====
-- KillProcess, KillProcessByIdentity and handleKillResult of server/hub.go, which share one map of
-- waiters. Requests run side by side, so that what each does is a sequence of events.
use librawatch.Common.{
  ℕ, ◌+◌, ◌==◌, Text, text_eq, Bool, true, false, if◌then◌else◌, Option, none, some, List, [], ◌∷◌,
  ◌++◌,
}

-- A channel is a number. `waiters` is the map killWaiters, `channel` what lies in the buffer of one,
-- `waiting` the agent whose answer the request of a channel waits for, and `answers` what the
-- requests returned: the output, or none for an error.
pub record Waiters : Type 0 where
  pub waiters : Text → Option ℕ
  pub channel : ℕ → Option Text
  pub waiting : ℕ → Option Text
  pub next : ℕ
  pub answers : List (ℕ × Option Text)

pub data WaiterEvent : Type 0 where
  requests : (agent : Text) → (sent : Bool) → WaiterEvent
  replies : (agent : Text) → (output : Text) → WaiterEvent
  receives : (ch : ℕ) → WaiterEvent
  times_out : (ch : ℕ) → WaiterEvent

unfoldable pub store : Text → Option ℕ → (Text → Option ℕ) → Text → Option ℕ
unfolding text_eq
store agent value m x = if text_eq x agent then value else m x

unfoldable pub set_at : ℕ → Option Text → (ℕ → Option Text) → ℕ → Option Text
set_at ch value m c = if c == ch then value else m c

-- A request that could not be sent returns at once, and deletes its waiter.
unfoldable pub begin_request : Text → Bool → Waiters → Waiters
unfolding store set_at
begin_request agent true s = record s {
  waiters = store agent (some s.next) s.waiters;
  channel = set_at s.next none s.channel;
  waiting = set_at s.next (some agent) s.waiting;
  next = s.next + 1;
}
begin_request agent false s = record s {
  waiters = store agent none s.waiters;
  next = s.next + 1;
  answers = s.answers ++ (s.next, none) ∷ [];
}

abbrev pub or_new : Option Text → Text → Option Text
or_new none output = some output
or_new (some old) output = some old

-- An output is dropped when nobody waits, or when the buffer is full.
unfoldable pub deliver_output : Option ℕ → Text → Waiters → Waiters
unfolding set_at
deliver_output none output s = s
deliver_output (some ch) output s = record s {
  channel = set_at ch (or_new (s.channel ch) output) s.channel;
}

unfoldable pub handle_kill_result : Text → Text → Waiters → Waiters
unfolding deliver_output
handle_kill_result agent output s = deliver_output (s.waiters agent) output s

-- The return, with the deferred Delete.
unfoldable pub finish_request : ℕ → Text → Option Text → Waiters → Waiters
unfolding store set_at
finish_request ch agent result s = record s {
  waiters = store agent none s.waiters;
  waiting = set_at ch none s.waiting;
  answers = s.answers ++ (ch, result) ∷ [];
}

-- A request that has no output yet keeps waiting.
unfoldable pub receive_output : ℕ → Option Text → Option Text → Waiters → Waiters
unfolding finish_request
receive_output ch (some agent) (some output) s = finish_request ch agent (some output) s
receive_output ch _ _ s = s

unfoldable pub give_up : ℕ → Option Text → Waiters → Waiters
unfolding finish_request
give_up ch none s = s
give_up ch (some agent) s = finish_request ch agent none s

unfoldable pub waiter_step : WaiterEvent → Waiters → Waiters
unfolding begin_request handle_kill_result receive_output give_up
waiter_step (requests agent sent) s = begin_request agent sent s
waiter_step (replies agent output) s = handle_kill_result agent output s
waiter_step (receives ch) s = receive_output ch (s.waiting ch) (s.channel ch) s
waiter_step (times_out ch) s = give_up ch (s.waiting ch) s

unfoldable pub waiter_run : List WaiterEvent → Waiters → Waiters
unfolding waiter_step
waiter_run [] s = s
waiter_run (e ∷ es) s = waiter_run es (waiter_step e s)

abbrev pub no_waiters : Waiters
no_waiters = record {
  waiters = λ agent. none;
  channel = λ ch. none;
  waiting = λ ch. none;
  next = 0;
  answers = [];
}
