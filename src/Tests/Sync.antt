-- ===== src/Tests/Sync.antt =====
-- The theorem on the policy of an agent at concrete writes.
use librawatch.Common.{codes, false, true, none, List, [], ◌∷◌, ◌≡◌, refl}
use librawatch.Common.Int.{pos}
use librawatch.Policy.Match.{Rule}
use librawatch.Policy.Cache.{normalize_relevant_apps, current_policy_cache}
use librawatch.Policy.Server.{get_enabled_policy_rules, get_policy_relevant_apps}
use librawatch.Policy.Admin.{
  PolicySync, PolicyEvent, posts_rule, moves_to, bumps, checks, handles, sync_run, new_sync,
}
use librawatch.Policy.Current.{sync_run-current}

abbrev no_games : Rule
no_games = record {
  id = pos 0;
  name = codes "no games";
  event_type = [];
  category_id = none;
  app_status = codes "blocked";
  file_extension = [];
  execution_location = [];
  device_group = codes "lab";
  action = codes "kill";
  enabled = true;
  created_at = 0;
}

-- The push is lost, and the agent's check brings the update.
abbrev writes : List PolicyEvent
writes = posts_rule (pos 1) 5 no_games ∷ bumps false ∷ checks 0 ∷ handles true ∷ []

abbrev synced : PolicySync
synced = sync_run (codes "pc-1") (codes "srv") writes new_sync

sync_run-current_example :
    ((current_policy_cache synced.cache).rules ≡ get_enabled_policy_rules synced.engine)
    × ((current_policy_cache synced.cache).relevant_apps
        ≡ normalize_relevant_apps (get_policy_relevant_apps synced.engine))
unfolding current_policy_cache
sync_run-current_example =
    sync_run-current (codes "pc-1") (codes "srv") writes synced refl (unfold sync_run in refl)
      (unfold sync_run in refl)

-- The group of an agent changes, and its check says that it is current: it keeps the old group.
stale_group_test :
    (current_policy_cache
      (sync_run
        (codes "pc-1")
        (codes "srv")
        (moves_to (codes "lab") ∷ checks 1 ∷ handles true ∷ [])
        synced).cache).device_group
    ≡ []
unfolding sync_run current_policy_cache
stale_group_test = refl
