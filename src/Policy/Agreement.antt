-- ===== src/Policy/Agreement.antt =====
-- The agent, with the cache that the server last sent it, decides as the server does, and keeps
-- deciding so after a restart.
use librawatch.Common.{
  ℕ, Text, text_eq, text_eq_refl, to_lower, to_lower_idem, filter, filter_idem, Bool, true, false,
  not, ◌&&◌, ◌≡◌, refl, ◌∙◌, ap, if◌then◌else◌, if_rule, Option, none, some, is_some, List, [], ◌∷◌,
  All, All-append,
}
use librawatch.Policy.Match.{Rule, Decision, match_score, consider, choose, evaluate}
use librawatch.Policy.Location.{Marker, classify_execution_location, extension}
use librawatch.Policy.Cache.{
  RelevantApp, Apps, app_at, app_or_none, normalize_relevant_apps, PolicyCache, CacheState,
  current_policy_cache, set_policy_cache, load_policy_cache_file, is_foreign, adopt,
  init_policy_cache, handle_policy_update, enabled_only, process_context, evaluate_process_locally,
}
use librawatch.Policy.Server.{
  Application, Engine, is_relevant, add_app, add_apps, get_policy_relevant_apps,
  get_enabled_policy_rules, process_decision, policy_update_for,
}

-- No rule looks at the agent's ID.
choose-agent :
    (a b group : Text) (app : RelevantApp) (ext loc : Text) (rs : List Rule)
    (best : Option (Rule × ℕ))
    → choose rs (process_context a group app ext loc) best
      ≡ choose rs (process_context b group app ext loc) best
unfolding choose match_score
choose-agent a b group app ext loc [] best = refl
choose-agent a b group app ext loc (r ∷ rs) best =
    choose-agent a b group app ext loc rs
      (consider r (match_score r (process_context a group app ext loc)) best)

abbrev IsLowered : Text × RelevantApp → Type 0
IsLowered e = to_lower e.0 ≡ e.0

add_app-IsLowered :
    (a : Application) (result : Apps) → All IsLowered result → All IsLowered (add_app a result)
unfolding add_app
add_app-IsLowered a result h =
    if_rule (All IsLowered) (is_some (app_at (to_lower a.exe_name) result)) result _ (λ _. h)
      (λ _. All-append IsLowered result _ h (to_lower_idem a.exe_name, tt))

add_apps-IsLowered :
    (rows : List Application) (result : Apps)
    → All IsLowered result
    → All IsLowered (add_apps rows result)
unfolding add_apps
add_apps-IsLowered [] result h = h
add_apps-IsLowered (a ∷ rows) result h =
    add_apps-IsLowered rows (add_app a result) (add_app-IsLowered a result h)

normalize_lowered : (apps : Apps) → All IsLowered apps → normalize_relevant_apps apps ≡ apps
unfolding normalize_relevant_apps
normalize_lowered [] h = refl
normalize_lowered (e ∷ apps) h = same_head e apps _ h.0 (normalize_lowered apps h.1)
  where
    same_head :
        (e : Text × RelevantApp) (xs ys : Apps)
        → to_lower e.0 ≡ e.0
        → ys ≡ xs
        → (to_lower e.0, e.1) ∷ ys ≡ e ∷ xs
    same_head (k, v) xs ys p q = rw (p, q) refl

apps-IsLowered : (e : Engine) → All IsLowered (get_policy_relevant_apps e)
unfolding get_policy_relevant_apps
apps-IsLowered e = add_apps-IsLowered (filter is_relevant e.applications) [] tt

-- The cache that an update leaves in memory.
abbrev synced : Text → Bool → Text → Engine → CacheState → PolicyCache
synced server saved agent e s =
    current_policy_cache (handle_policy_update server saved (policy_update_for agent e) s)

abbrev decided :
    (ℕ → Bool)
    → List Marker
    → Text
    → Text
    → Text
    → List Rule
    → Apps
    → Text
    → Text
    → Option (Decision × RelevantApp)
decided sep markers agent group name rules apps path key =
    let loc = classify_execution_location markers path in
    let flagged = app_at key apps in
    let app = app_or_none flagged in
    if text_eq loc [] && not (is_some flagged)
    then none
    else some (evaluate rules (process_context agent group app (extension sep path) loc), app)

decided-agent :
    (sep : ℕ → Bool) (markers : List Marker) (a b group name : Text) (rules : List Rule)
    (apps : Apps) (path key : Text)
    → decided sep markers a group name rules apps path key
      ≡ decided sep markers b group name rules apps path key
unfolding evaluate
decided-agent sep markers a b group name rules apps path key =
    rw
      (choose-agent a b group (app_or_none (app_at key apps)) (extension sep path)
        (classify_execution_location markers path) rules none)
      refl

-- An agent that has taken the server's update in decides every process as the server's engine
-- does on the same rules and applications, whatever the two call a directory separator and in
-- whatever order they try the locations, as long as both do the same.
pub evaluate_process_locally_agrees :
    (sep : ℕ → Bool) (markers : List Marker) (server agent : Text) (saved : Bool) (e : Engine)
    (s : CacheState) (name path : Text)
    → evaluate_process_locally sep markers (synced server saved agent e s) name path
      ≡ process_decision sep markers (get_policy_relevant_apps e) e agent name path
unfolding evaluate_process_locally process_decision handle_policy_update set_policy_cache
    current_policy_cache policy_update_for enabled_only get_enabled_policy_rules
evaluate_process_locally_agrees sep markers server agent saved e s name path =
    ap
      (λ r.
        decided sep markers [] (e.device_group agent) name r
          (normalize_relevant_apps (get_policy_relevant_apps e)) path (to_lower name))
      (filter_idem (λ (r : Rule). r.enabled) e.policy_rules)
    ∙ ap
        (λ a.
          decided sep markers [] (e.device_group agent) name
            (filter (λ r. r.enabled) e.policy_rules) a path (to_lower name))
        (normalize_lowered (get_policy_relevant_apps e) (apps-IsLowered e))
    ∙ decided-agent sep markers [] agent (e.device_group agent) name
        (filter (λ r. r.enabled) e.policy_rules) (get_policy_relevant_apps e) path (to_lower name)

-- A process that starts with what is on disk.
abbrev pub restarted : CacheState → CacheState
restarted s = record { current = none; file = s.file }

-- An update that could be written survives a restart: an agent that connects to the same server
-- has the same cache at once, and one that connects to another server does not use it.
pub init_policy_cache-restart :
    (server other : Text) (agent : Text) (e : Engine) (s : CacheState)
    → text_eq server [] ≡ false
    → text_eq server other ≡ false
    → let s' = handle_policy_update server true (policy_update_for agent e) s in
      (current_policy_cache (init_policy_cache server (restarted s')) ≡ current_policy_cache s')
      × (init_policy_cache other (restarted s') ≡ restarted s')
unfolding handle_policy_update set_policy_cache init_policy_cache load_policy_cache_file adopt
    is_foreign policy_update_for current_policy_cache
init_policy_cache-restart server other agent e s named foreign =
    let same = normalize_lowered (get_policy_relevant_apps e) (apps-IsLowered e) in
    let with_apps : Apps → PolicyCache = λ a. record {
      version = e.policy_version;
      server_url = server;
      device_group = e.device_group agent;
      rules = get_enabled_policy_rules e;
      relevant_apps = a;
    } in
    (rw (text_eq_refl server, named, same) (ap with_apps same), rw (named, foreign) refl)
