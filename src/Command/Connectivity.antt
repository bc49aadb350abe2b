-- ===== src/Command/Connectivity.antt =====
-- A toggle never takes an agent off the network.
use librawatch.Common.{
  Text, text_eq, Bool, true, false, ◌||◌, if◌then◌else◌, if_rule, Option, none, some, List, [], ◌∷◌,
  ◌++◌, ◌≡◌, refl, ap, sym, subst, ◌∙◌, arith, is_some,
}
use librawatch.Command.Network.{
  Toggle, enable_wifi, disable_wifi, enable_lan, disable_lan, other_action, Mode, both, wifi,
  ethernet, other_mode, compute_network_mode_transition, PushResult, offline, push_error, pushed,
  ToggleRow, ToggleState, set_desired, pushed_row, apply_toggle, toggle_each, is_refused,
  create_network_toggle_command,
}

-- A mode as the two adapters that it leaves on.
pub record Adapters : Type 0 where
  pub wifi_on : Bool
  pub lan_on : Bool

abbrev pub adapters : Mode → Option Adapters
adapters both = some (record { wifi_on = true; lan_on = true })
adapters wifi = some (record { wifi_on = true; lan_on = false })
adapters ethernet = some (record { wifi_on = false; lan_on = true })
adapters (other_mode m) = none

-- What an action asks for.
abbrev pub switched : Toggle → Adapters → Option Adapters
switched enable_wifi a = some (record a { wifi_on = true })
switched disable_wifi a = some (record a { wifi_on = false })
switched enable_lan a = some (record a { lan_on = true })
switched disable_lan a = some (record a { lan_on = false })
switched (other_action t) a = none

-- Refused when no adapter is left.
abbrev pub connected : Option Adapters → Option Adapters
connected none = none
connected (some a) = if a.wifi_on || a.lan_on then some a else none

abbrev pub adapters_of : Option Mode → Option Adapters
adapters_of none = none
adapters_of (some m) = adapters m

abbrev pub from_known : Toggle → Option Adapters → Option Adapters
from_known action none = none
from_known action (some a) = connected (switched action a)

-- From a mode that is one of the three, the new mode has the adapters on that the action asks
-- for, and the action is refused exactly when it would leave none on, or is not one of the four;
-- from any other mode it gives none of the three.
pub compute_network_mode_transition-adapters :
    (action : Toggle) (m : Mode)
    → adapters_of (compute_network_mode_transition action m) ≡ from_known action (adapters m)
unfolding compute_network_mode_transition
compute_network_mode_transition-adapters action m = ground arith

-- One of the three modes.
abbrev pub IsConnected : Mode → Type 0
IsConnected m = is_some (adapters m) ≡ true

transition-IsConnected :
    (action : Toggle) (m n : Mode)
    → IsConnected m
    → compute_network_mode_transition action m ≡ some n
    → IsConnected n
unfolding compute_network_mode_transition
transition-IsConnected action m n h e = ground arith

-- Every agent wants one of the three modes.
abbrev pub AllConnected : ToggleState → Type 0
AllConnected s = (x : Text) → IsConnected (s.desired x)

apply_toggle-AllConnected :
    (push : Text → Mode → PushResult) (agent : Text) (o : Option Mode) (s : ToggleState)
    → ((n : Mode) → o ≡ some n → IsConnected n)
    → AllConnected s
    → AllConnected (apply_toggle push agent o s)
unfolding apply_toggle set_desired
apply_toggle-AllConnected push agent none s h v = v
apply_toggle-AllConnected push agent (some n) s h v =
    λ x. if_rule IsConnected (text_eq x agent) n (s.desired x) (λ _. h n refl) (λ _. v x)

toggle_each-AllConnected :
    (push : Text → Mode → PushResult) (action : Toggle) (agents : List Text) (s : ToggleState)
    → AllConnected s
    → AllConnected (toggle_each push action agents s)
unfolding toggle_each
toggle_each-AllConnected push action [] s v = v
toggle_each-AllConnected push action (agent ∷ agents) s v =
    toggle_each-AllConnected push action agents _ (
      apply_toggle-AllConnected push agent
        (compute_network_mode_transition action (s.desired agent)) s
        (λ n e. transition-IsConnected action (s.desired agent) n (v agent) e) v)

-- The agents that the rows are about.
abbrev pub reported : List ToggleRow → List Text
reported [] = []
reported (r ∷ rows) = r.agent_id ∷ reported rows

reported-append :
    (xs : List ToggleRow) (r : ToggleRow) → reported (xs ++ r ∷ []) ≡ reported xs ++ r.agent_id ∷ []
reported-append [] r = refl
reported-append (x ∷ xs) r = ap (λ l. x.agent_id ∷ l) (reported-append xs r)

agent_id-pushed_row : (agent : Text) (p : PushResult) → (pushed_row agent p).agent_id ≡ agent
unfolding pushed_row
agent_id-pushed_row agent offline = refl
agent_id-pushed_row agent (push_error e) = refl
agent_id-pushed_row agent (pushed o) = refl

reported-apply_toggle :
    (push : Text → Mode → PushResult) (agent : Text) (o : Option Mode) (s : ToggleState)
    → reported (apply_toggle push agent o s).rows ≡ reported s.rows ++ agent ∷ []
unfolding apply_toggle
reported-apply_toggle push agent none s = reported-append s.rows _
reported-apply_toggle push agent (some n) s =
    reported-append s.rows _
    ∙ ap (λ i. reported s.rows ++ i ∷ []) (agent_id-pushed_row agent (push agent n))

append_step : (a : List Text) (c : Text) (b : List Text) → (a ++ c ∷ []) ++ b ≡ a ++ c ∷ b
append_step [] c b = refl
append_step (x ∷ a) c b = ap (λ l. x ∷ l) (append_step a c b)

append_none : (a : List Text) → a ++ [] ≡ a
append_none [] = refl
append_none (x ∷ a) = ap (λ l. x ∷ l) (append_none a)

reported-toggle_each :
    (push : Text → Mode → PushResult) (action : Toggle) (agents : List Text) (s : ToggleState)
    → reported (toggle_each push action agents s).rows ≡ reported s.rows ++ agents
unfolding toggle_each
reported-toggle_each push action [] s = sym (append_none (reported s.rows))
reported-toggle_each push action (agent ∷ agents) s =
    let s' = apply_toggle push agent (compute_network_mode_transition action (s.desired agent)) s in
    reported-toggle_each push action agents s'
    ∙ ap (λ l. l ++ agents) (reported-apply_toggle push agent _ s)
    ∙ append_step (reported s.rows) agent agents

-- Whatever the action, the targets and the answers of the agents, a command that is made leaves
-- every agent with one of the three modes, if it had one before, and has one row for each target
-- in their order.
pub create_network_toggle_command-AllConnected :
    (push : Text → Mode → PushResult) (action : Toggle) (agents : List Text) (s t : ToggleState)
    → AllConnected s
    → create_network_toggle_command push action agents s ≡ some t
    → AllConnected t × (reported t.rows ≡ agents)
unfolding create_network_toggle_command
create_network_toggle_command-AllConnected push action agents s t v h =
    subst (λ (x : ToggleState). AllConnected x × (reported x.rows ≡ agents))
      (made (is_refused action agents s) h)
      (toggle_each-AllConnected push action agents s' v, reported-toggle_each push action agents s')
  where
    s' : ToggleState
    s' = record s { rows = [] }

    made :
        (b : Bool)
        → (if b then none else some (toggle_each push action agents s')) ≡ some t
        → toggle_each push action agents s' ≡ t
    made true e = cc
    made false e = cc
