-- ===== src/Policy/Cache.antt =====
-- The agent's policy cache, agent/policycache.go: what it keeps, and the decision on a process.
-- A cache file that cannot be read or decoded is none. `markers` is the order in which Go runs
-- through the location markers.
use librawatch.Common.{
  ℕ, Text, text_eq, to_lower, filter, map, Bool, not, ◌&&◌, if◌then◌else◌, Option, none, some,
  is_some, List, [], ◌∷◌,
}
use librawatch.Common.Int.{ℤ}
use librawatch.Policy.Match.{Rule, Context, Decision, evaluate}
use librawatch.Policy.Location.{Marker, classify_execution_location, extension}

pub record RelevantApp : Type 0 where
  pub status : Text
  pub category_id : Option ℤ
  pub company : Text

-- A map with text keys is the list of its entries; of equal keys the first counts.
abbrev pub Apps : Type 0
Apps = List (Text × RelevantApp)

unfoldable pub app_at : Text → Apps → Option RelevantApp
unfolding text_eq
app_at key [] = none
app_at key ((k, v) ∷ rest) = let found = app_at key rest in if text_eq k key then some v else found

abbrev pub no_app : RelevantApp
no_app = record { status = []; category_id = none; company = [] }

pub record PolicyCache : Type 0 where
  pub version : ℕ
  pub server_url : Text
  pub device_group : Text
  pub rules : List Rule
  pub relevant_apps : Apps

abbrev pub empty_cache : PolicyCache
empty_cache = record {
  version = 0;
  server_url = [];
  device_group = [];
  rules = [];
  relevant_apps = [];
}

-- Go writes the entries of a map in an order that it does not specify; keys that lower case
-- makes equal are taken in the order of the list, the first one kept.
unfoldable pub normalize_relevant_apps : Apps → Apps
unfolding to_lower
normalize_relevant_apps = map (λ e. (to_lower e.0, e.1))

-- The cache in memory, and the one on disk.
pub record CacheState : Type 0 where
  pub current : Option PolicyCache
  pub file : Option PolicyCache

abbrev pub cache_or_empty : Option PolicyCache → PolicyCache
cache_or_empty none = empty_cache
cache_or_empty (some c) = c

unfoldable pub current_policy_cache : CacheState → PolicyCache
current_policy_cache s = cache_or_empty s.current

-- `saved` is whether the file could be written; it is replaced as a whole or not at all.
unfoldable pub set_policy_cache : Bool → PolicyCache → CacheState → CacheState
set_policy_cache saved c s = record { current = some c; file = if saved then some c else s.file }

unfoldable pub load_policy_cache_file : Option PolicyCache → Option PolicyCache
unfolding normalize_relevant_apps
load_policy_cache_file none = none
load_policy_cache_file (some c) =
    some (record c { relevant_apps = normalize_relevant_apps c.relevant_apps })

unfoldable pub is_foreign : Text → PolicyCache → Bool
unfolding text_eq
is_foreign server c = not (text_eq c.server_url []) && not (text_eq c.server_url server)

unfoldable pub adopt : Text → Option PolicyCache → CacheState → CacheState
unfolding is_foreign
adopt server none s = s
adopt server (some c) s = if is_foreign server c then s else record s { current = some c }

unfoldable pub init_policy_cache : Text → CacheState → CacheState
unfolding adopt load_policy_cache_file
init_policy_cache server s = adopt server (load_policy_cache_file s.file) s

pub record PolicyUpdate : Type 0 where
  pub policy_version : ℕ
  pub policy_rules : List Rule
  pub policy_apps : Apps
  pub device_group : Text

unfoldable pub handle_policy_update : Text → Bool → PolicyUpdate → CacheState → CacheState
unfolding set_policy_cache normalize_relevant_apps
handle_policy_update server saved u s =
    set_policy_cache saved
      (record {
        version = u.policy_version;
        server_url = server;
        device_group = u.device_group;
        rules = u.policy_rules;
        relevant_apps = normalize_relevant_apps u.policy_apps;
      })
      s

unfoldable pub enabled_only : List Rule → List Rule
unfolding filter
enabled_only = filter (λ r. r.enabled)

abbrev pub app_or_none : Option RelevantApp → RelevantApp
app_or_none none = no_app
app_or_none (some a) = a

-- The context of a process on either side; the agent leaves its ID out.
abbrev pub process_context : Text → Text → RelevantApp → Text → Text → Context
process_context agent group app ext loc = record {
  agent_id = agent;
  device_group = group;
  event_type = [];
  category_id = app.category_id;
  app_status = app.status;
  file_extension = ext;
  execution_location = loc;
}

unfoldable pub evaluate_process_locally :
    (ℕ → Bool) → List Marker → PolicyCache → Text → Text → Option (Decision × RelevantApp)
unfolding classify_execution_location extension app_at text_eq to_lower enabled_only evaluate
evaluate_process_locally is_separator markers cache name path =
    let loc = classify_execution_location markers path in
    let flagged = app_at (to_lower name) cache.relevant_apps in
    let app = app_or_none flagged in
    if text_eq loc [] && not (is_some flagged)
    then none
    else some (
      evaluate (enabled_only cache.rules)
          (process_context [] cache.device_group app (extension is_separator path) loc),
      app,
    )
