-- ===== src/Command/Network.antt =====
-- computeNetworkModeTransition and createNetworkToggleCommand of server/commands.go. The hub's
-- answer to a push of a mode is an argument.
use librawatch.Common.{
  Text, codes, text_eq, Bool, if◌then◌else◌, Option, none, some, List, [], ◌∷◌, ◌++◌,
}

-- An action that is none of the four, and a mode that is none of the three, are `other`.
pub data Toggle : Type 0 where
  enable_wifi : Toggle
  disable_wifi : Toggle
  enable_lan : Toggle
  disable_lan : Toggle
  other_action : Text → Toggle

pub data Mode : Type 0 where
  both : Mode
  wifi : Mode
  ethernet : Mode
  other_mode : Text → Mode

unfoldable pub compute_network_mode_transition : Toggle → Mode → Option Mode
compute_network_mode_transition enable_wifi ethernet = some both
compute_network_mode_transition enable_wifi both = some both
compute_network_mode_transition enable_wifi wifi = some wifi
compute_network_mode_transition enable_wifi (other_mode m) = some (other_mode m)
compute_network_mode_transition disable_wifi both = some ethernet
compute_network_mode_transition disable_wifi wifi = none
compute_network_mode_transition disable_wifi ethernet = some ethernet
compute_network_mode_transition disable_wifi (other_mode m) = some (other_mode m)
compute_network_mode_transition enable_lan wifi = some both
compute_network_mode_transition enable_lan both = some both
compute_network_mode_transition enable_lan ethernet = some ethernet
compute_network_mode_transition enable_lan (other_mode m) = some (other_mode m)
compute_network_mode_transition disable_lan both = some wifi
compute_network_mode_transition disable_lan ethernet = none
compute_network_mode_transition disable_lan wifi = some wifi
compute_network_mode_transition disable_lan (other_mode m) = some (other_mode m)
compute_network_mode_transition (other_action a) current = none

-- What the hub answers: not online, an error, or the agent's output.
pub data PushResult : Type 0 where
  offline : PushResult
  push_error : Text → PushResult
  pushed : Text → PushResult

pub data ToggleStatus : Type 0 where
  deferred : ToggleStatus
  failed : ToggleStatus
  success : ToggleStatus

pub record ToggleRow : Type 0 where
  pub agent_id : Text
  pub status : ToggleStatus
  pub output : Text

-- desired_network_mode of each agent, and the result rows of the job.
pub record ToggleState : Type 0 where
  pub desired : Text → Mode
  pub rows : List ToggleRow

unfoldable pub set_desired : Text → Mode → (Text → Mode) → Text → Mode
unfolding text_eq
set_desired agent mode desired x = if text_eq x agent then mode else desired x

unfoldable pub pushed_row : Text → PushResult → ToggleRow
pushed_row agent offline = record {
  agent_id = agent;
  status = deferred;
  output = codes "agent offline; will reconcile automatically on next connect";
}
pushed_row agent (push_error e) = record { agent_id = agent; status = failed; output = e }
pushed_row agent (pushed o) = record { agent_id = agent; status = success; output = o }

unfoldable pub apply_toggle :
    (Text → Mode → PushResult) → Text → Option Mode → ToggleState → ToggleState
unfolding set_desired pushed_row
apply_toggle push agent none s = record s {
  rows =
      s.rows
      ++ record {
        agent_id = agent;
        status = failed;
        output = codes "would leave agent with no network connectivity";
      }
        ∷ [];
}
apply_toggle push agent (some mode) s = record {
  desired = set_desired agent mode s.desired;
  rows = s.rows ++ pushed_row agent (push agent mode) ∷ [];
}

unfoldable pub toggle_each :
    (Text → Mode → PushResult) → Toggle → List Text → ToggleState → ToggleState
unfolding apply_toggle compute_network_mode_transition
toggle_each push action [] s = s
toggle_each push action (agent ∷ agents) s =
    toggle_each push action agents
      (apply_toggle push agent (compute_network_mode_transition action (s.desired agent)) s)

-- A single agent that would lose its network is refused before a job is made.
unfoldable pub is_refused : Toggle → List Text → ToggleState → Bool
unfolding compute_network_mode_transition
is_refused action (agent ∷ []) s = elim (compute_network_mode_transition action (s.desired agent)) [
  | none ↦ Bool.true
  | some m ↦ Bool.false
]
is_refused action agents s = Bool.false

-- None is the refusal; the job that is made is done at once.
unfoldable pub create_network_toggle_command :
    (Text → Mode → PushResult) → Toggle → List Text → ToggleState → Option ToggleState
unfolding is_refused toggle_each
create_network_toggle_command push action agents s =
    if is_refused action agents s
    then none
    else some (toggle_each push action agents (record s { rows = [] }))
