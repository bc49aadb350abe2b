-- ===== src/Tests/Policy.antt =====
-- The theorems on the policy at concrete rules and processes.
use librawatch.Common.{
  ℕ, Text, codes, text_eq, Bool, true, ◌==◌, ◌||◌, ◌≡◌, refl, to_lower, equal_fold, contains,
  has_prefix, none, List, [], ◌∷◌,
}
use librawatch.Common.Int.{pos}
use librawatch.Policy.Match.{Rule, Context, evaluate}
use librawatch.Policy.Choice.{Decides, evaluate-Decides}
use librawatch.Policy.Location.{watched_location_markers, classify_execution_location}
use librawatch.Policy.Order.{Located, classify_execution_location-Located}
use librawatch.Policy.Cache.{
  CacheState, current_policy_cache, handle_policy_update, evaluate_process_locally,
}
use librawatch.Policy.Server.{Engine, get_policy_relevant_apps, process_decision, policy_update_for}
use librawatch.Policy.Agreement.{evaluate_process_locally_agrees}

abbrev rule_of : ℕ → Text → Text → Text → Rule
rule_of id status location action = record {
  id = pos id;
  name = [];
  event_type = [];
  category_id = none;
  app_status = status;
  file_extension = [];
  execution_location = location;
  device_group = [];
  action = action;
  enabled = true;
  created_at = 0;
}

abbrev blocked_anywhere : Rule
blocked_anywhere = rule_of 1 (codes "blocked") [] (codes "kill")

abbrev blocked_in_downloads : Rule
blocked_in_downloads = rule_of 2 (codes "blocked") (codes "downloads") (codes "notify")

abbrev rules : List Rule
rules = blocked_anywhere ∷ blocked_in_downloads ∷ []

abbrev download : Context
download = record {
  agent_id = codes "pc-1";
  device_group = [];
  event_type = [];
  category_id = none;
  app_status = codes "blocked";
  file_extension = codes "exe";
  execution_location = codes "Downloads";
}

evaluate_example : Decides rules download (evaluate rules download)
evaluate_example = evaluate-Decides rules download

-- The more specific of the two rules is chosen, although it is not the older one.
evaluate_test : (evaluate rules download).action ≡ codes "notify"
unfolding evaluate text_eq
evaluate_test = refl

abbrev installer : Text
installer = codes "C:\\Users\\a\\Downloads\\zoom.exe"

abbrev is_backslash : ℕ → Bool
is_backslash c = (c == 92) || (c == 47)

abbrev engine : Engine
engine = record {
  applications =
      record {
        exe_name = codes "Zoom.exe";
        status = codes "blocked";
        category_id = none;
        company = codes "Zoom";
      }
      ∷ [];
  policy_rules = rules;
  device_group = λ agent. codes "lab";
  policy_version = 3;
  relevant_apps_cache = none;
  relevant_apps_at = 0;
}

abbrev new_cache : CacheState
new_cache = record { current = none; file = none }

abbrev server_url : Text
server_url = codes "http://a"

agrees_example :
    evaluate_process_locally is_backslash watched_location_markers
      (current_policy_cache
        (handle_policy_update server_url true (policy_update_for (codes "pc-1") engine) new_cache))
      (codes "ZOOM.EXE")
      installer
    ≡ process_decision is_backslash watched_location_markers
        (get_policy_relevant_apps engine)
        engine
        (codes "pc-1")
        (codes "ZOOM.EXE")
        installer
agrees_example =
    evaluate_process_locally_agrees is_backslash watched_location_markers server_url (codes "pc-1")
      true engine new_cache (codes "ZOOM.EXE") installer

location_example :
    Located installer (classify_execution_location watched_location_markers installer)
location_example =
    classify_execution_location-Located watched_location_markers _ _ (λ m. ((λ k. k), (λ k. k)))

-- The installer is in a folder for downloads.
location_test : classify_execution_location watched_location_markers installer ≡ codes "downloads"
unfolding classify_execution_location to_lower contains has_prefix equal_fold text_eq
location_test = refl
