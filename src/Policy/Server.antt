-- ===== src/Policy/Server.antt =====
-- The server's side of the policy: GetPolicyRelevantApps and GetEnabledPolicyRules of
-- server/db.go, the version check of server/hub.go and the engine of server/policy.go.
use librawatch.Common.{
  ℕ, ◌-◌, Text, codes, text_eq, to_lower, filter, Bool, not, ◌&&◌, ◌||◌, ltb, leb, if◌then◌else◌,
  Option, none, some, is_some, List, [], ◌∷◌, ◌++◌,
}
use librawatch.Common.Int.{ℤ}
use librawatch.Policy.Match.{Rule, Decision, policy_action_log, evaluate}
use librawatch.Policy.Location.{Marker, classify_execution_location, extension}
use librawatch.Policy.Cache.{RelevantApp, Apps, app_at, app_or_none, PolicyUpdate, process_context}

pub record Application : Type 0 where
  pub exe_name : Text
  pub status : Text
  pub category_id : Option ℤ
  pub company : Text

pub record Process : Type 0 where
  pub pid : ℕ
  pub name : Text
  pub path : Text

pub record Engine : Type 0 where
  pub applications : List Application
  pub policy_rules : List Rule
  pub device_group : Text → Text
  pub policy_version : ℕ
  pub relevant_apps_cache : Option Apps
  pub relevant_apps_at : ℕ

unfoldable pub is_relevant : Application → Bool
unfolding text_eq
is_relevant a =
    not (text_eq a.exe_name [])
    && (not (text_eq a.status (codes "pending_review")) || is_some a.category_id)

unfoldable pub relevant_app : Application → RelevantApp
unfolding text_eq
relevant_app a = record {
  status = if text_eq a.status (codes "pending_review") then [] else a.status;
  category_id = a.category_id;
  company = a.company;
}

unfoldable pub add_app : Application → Apps → Apps
unfolding app_at relevant_app to_lower
add_app a result =
    let key = to_lower a.exe_name in
    if is_some (app_at key result) then result else result ++ (key, relevant_app a) ∷ []

unfoldable pub add_apps : List Application → Apps → Apps
unfolding add_app
add_apps [] result = result
add_apps (a ∷ rows) result = add_apps rows (add_app a result)

unfoldable pub get_policy_relevant_apps : Engine → Apps
unfolding is_relevant filter add_apps
get_policy_relevant_apps e = add_apps (filter is_relevant e.applications) []

unfoldable pub get_enabled_policy_rules : Engine → List Rule
unfolding filter
get_enabled_policy_rules e = filter (λ r. r.enabled) e.policy_rules

abbrev pub relevant_apps_cache_ttl : ℕ
relevant_apps_cache_ttl = 5

unfoldable pub reload : ℕ → Engine → Apps × Engine
unfolding get_policy_relevant_apps
reload now e =
    let fresh = get_policy_relevant_apps e in
    (fresh, record e { relevant_apps_cache = some fresh; relevant_apps_at = now })

unfoldable pub cached_or_reload : ℕ → Engine → Option Apps → Apps × Engine
unfolding reload
cached_or_reload now e none = reload now e
cached_or_reload now e (some apps) =
    let fresh = reload now e in
    if ltb (now - e.relevant_apps_at) relevant_apps_cache_ttl then (apps, e) else fresh

unfoldable pub relevant_apps : ℕ → Engine → Apps × Engine
unfolding cached_or_reload
relevant_apps now e = cached_or_reload now e e.relevant_apps_cache

-- The decision on one process, for one that runs from a watched location or is flagged.
unfoldable pub process_decision :
    (ℕ → Bool) → List Marker → Apps → Engine → Text → Text → Text → Option (Decision × RelevantApp)
unfolding classify_execution_location extension app_at text_eq to_lower get_enabled_policy_rules
    evaluate
process_decision is_separator markers apps e agent name path =
    let loc = classify_execution_location markers path in
    let flagged = app_at (to_lower name) apps in
    let app = app_or_none flagged in
    if text_eq loc [] && not (is_some flagged)
    then none
    else some (
      evaluate (get_enabled_policy_rules e)
          (process_context agent (e.device_group agent) app (extension is_separator path) loc),
      app,
    )

-- What actOnExecution is called with.
pub record Enforcement : Type 0 where
  pub process : Process
  pub company : Text
  pub decision : Decision

unfoldable pub escalated : Process → Option (Decision × RelevantApp) → List Enforcement
unfolding text_eq
escalated proc none = []
escalated proc (some (d, app)) =
    if text_eq d.action policy_action_log
    then []
    else record { process = proc; company = app.company; decision = d } ∷ []

unfoldable pub evaluate_each :
    (ℕ → Bool) → List Marker → Apps → Engine → Text → List Process → List Enforcement
unfolding escalated process_decision
evaluate_each is_separator markers apps e agent [] = []
evaluate_each is_separator markers apps e agent (p ∷ ps) =
    escalated p (process_decision is_separator markers apps e agent p.name p.path)
    ++ evaluate_each is_separator markers apps e agent ps

unfoldable pub evaluate_processes :
    (ℕ → Bool) → List Marker → ℕ → Text → List Process → Engine → List Enforcement × Engine
unfolding relevant_apps evaluate_each
evaluate_processes is_separator markers now agent ps e =
    let (apps, e') = relevant_apps now e in
    (evaluate_each is_separator markers apps e' agent ps, e')

-- The action that is recorded, where the agent's answer to a kill is none when it is offline or
-- does not answer in time.
unfoldable pub act_on_execution : Text → Option Text → Text
unfolding text_eq
act_on_execution action answer =
    if text_eq action (codes "kill")
    then (if is_some answer then codes "killed" else codes "log")
    else if text_eq action (codes "notify")
    then codes "notify"
    else if text_eq action (codes "block") || text_eq action (codes "delete")
    then codes "blocked"
    else action

unfoldable pub policy_update_for : Text → Engine → PolicyUpdate
unfolding get_enabled_policy_rules get_policy_relevant_apps
policy_update_for agent e = record {
  policy_version = e.policy_version;
  policy_rules = get_enabled_policy_rules e;
  policy_apps = get_policy_relevant_apps e;
  device_group = e.device_group agent;
}

-- The reply to an agent that reports its version.
unfoldable pub handle_policy_version_check : Text → ℕ → Engine → Option PolicyUpdate
unfolding policy_update_for
handle_policy_version_check agent version e =
    if leb e.policy_version version then none else some (policy_update_for agent e)
