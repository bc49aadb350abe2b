-- ===== src/Policy/Admin.antt =====
-- The writes to the policy: InsertPolicyRule, UpdatePolicyRule, DeletePolicyRule and
-- BumpPolicyVersion of server/db.go, their routes in server/api.go, and BroadcastPolicyUpdate of
-- server/hub.go. A write and the bump after it are two steps, between which others may come.
use librawatch.Common.{
  ℕ, zero, suc, ◌+◌, Text, codes, text_eq, any, filter, map_where, Bool, not, ◌&&◌, ◌||◌,
  if◌then◌else◌, Option, none, some, List, [], ◌∷◌, ◌++◌,
}
use librawatch.Common.Int.{ℤ}
use librawatch.Policy.Match.{Rule, eq_ℤ}
use librawatch.Policy.Cache.{PolicyUpdate, CacheState, handle_policy_update}
use librawatch.Policy.Server.{Application, Engine, policy_update_for, handle_policy_version_check}

abbrev pub valid_app_statuses : List Text
valid_app_statuses =
    codes "pending_review" ∷ codes "allowed" ∷ codes "blocked" ∷ codes "ignored" ∷ []

abbrev pub valid_policy_actions : List Text
valid_policy_actions =
    codes "log" ∷ codes "notify" ∷ codes "block" ∷ codes "delete" ∷ codes "kill" ∷ []

-- The checks of the routes on a rule.
unfoldable pub is_valid_rule : Rule → Bool
unfolding any text_eq
is_valid_rule r =
    not (text_eq r.name [])
    && any (text_eq r.action) valid_policy_actions
    && (text_eq r.app_status [] || any (text_eq r.app_status) valid_app_statuses)

unfoldable pub insert_policy_rule : ℤ → ℕ → Rule → Engine → Engine
insert_policy_rule id now r e = record e {
  policy_rules = e.policy_rules ++ record r { id = id; created_at = now } ∷ [];
}

unfoldable pub update_policy_rule : ℤ → Rule → Engine → Engine
unfolding map_where
update_policy_rule id r e = record e {
  policy_rules =
      map_where (λ q. eq_ℤ q.id id) (λ q. record r { id = q.id; created_at = q.created_at })
        e.policy_rules;
}

unfoldable pub delete_policy_rule : ℤ → Engine → Engine
unfolding filter
delete_policy_rule id e = record e {
  policy_rules = filter (λ q. not (eq_ℤ q.id id)) e.policy_rules;
}

-- PATCH /agents/:id, which neither bumps nor sends.
unfoldable pub set_agent_device_group : Text → Text → Engine → Engine
unfolding text_eq
set_agent_device_group agent group e = record e {
  device_group = λ a. if text_eq a agent then group else e.device_group a;
}

-- The server, the messages on their way to an agent, and the agent's cache. `unbumped` are the
-- writes whose bump has not come yet.
pub record PolicySync : Type 0 where
  pub engine : Engine
  pub unbumped : ℕ
  pub sent : List PolicyUpdate
  pub cache : CacheState

-- `categorizes` is a change of the status or category of applications; `delivered` is that the
-- agent is connected and its channel not full; `saved` that the agent's file could be written.
pub data PolicyEvent : Type 0 where
  posts_rule : (id : ℤ) → (now : ℕ) → (rule : Rule) → PolicyEvent
  patches_rule : (id : ℤ) → (rule : Rule) → PolicyEvent
  deletes_rule : (id : ℤ) → PolicyEvent
  categorizes : (applications : List Application) → PolicyEvent
  moves_to : (group : Text) → PolicyEvent
  bumps : (delivered : Bool) → PolicyEvent
  checks : (reported : ℕ) → PolicyEvent
  handles : (saved : Bool) → PolicyEvent

unfoldable pub write : Engine → PolicySync → PolicySync
write e s = record s { engine = e; unbumped = s.unbumped + 1 }

unfoldable pub bump_policy_version : Engine → Engine
bump_policy_version e = record e { policy_version = e.policy_version + 1 }

abbrev pub sent_if : Bool → PolicyUpdate → List PolicyUpdate → List PolicyUpdate
sent_if delivered u sent = if delivered then sent ++ u ∷ [] else sent

abbrev pub sent_with : Option PolicyUpdate → List PolicyUpdate → List PolicyUpdate
sent_with none sent = sent
sent_with (some u) sent = sent ++ u ∷ []

module _ (agent server : Text) where
  -- bumpPolicyVersionAndBroadcast, of which there is one for each write.
  unfoldable pub bump_and_broadcast : Bool → ℕ → PolicySync → PolicySync
  unfolding bump_policy_version policy_update_for
  bump_and_broadcast delivered zero s = s
  bump_and_broadcast delivered (suc n) s =
      let e = bump_policy_version s.engine in
      record s {
        engine = e;
        unbumped = n;
        sent = sent_if delivered (policy_update_for agent e) s.sent;
      }

  unfoldable pub handle_next : Bool → List PolicyUpdate → PolicySync → PolicySync
  unfolding handle_policy_update
  handle_next saved [] s = s
  handle_next saved (u ∷ rest) s = record s {
    sent = rest;
    cache = handle_policy_update server saved u s.cache;
  }

  unfoldable pub sync_step : PolicyEvent → PolicySync → PolicySync
  unfolding set_agent_device_group write is_valid_rule insert_policy_rule update_policy_rule
      delete_policy_rule bump_and_broadcast handle_policy_version_check handle_next
  sync_step (posts_rule id now r) s =
      if is_valid_rule r then write (insert_policy_rule id now r s.engine) s else s
  sync_step (patches_rule id r) s =
      if is_valid_rule r then write (update_policy_rule id r s.engine) s else s
  sync_step (deletes_rule id) s = write (delete_policy_rule id s.engine) s
  sync_step (categorizes apps) s = write (record s.engine { applications = apps }) s
  sync_step (moves_to group) s = record s { engine = set_agent_device_group agent group s.engine }
  sync_step (bumps delivered) s = bump_and_broadcast delivered s.unbumped s
  sync_step (checks reported) s = record s {
    sent = sent_with (handle_policy_version_check agent reported s.engine) s.sent;
  }
  sync_step (handles saved) s = handle_next saved s.sent s

  unfoldable pub sync_run : List PolicyEvent → PolicySync → PolicySync
  unfolding sync_step
  sync_run [] s = s
  sync_run (e ∷ es) s = sync_run es (sync_step e s)

-- A database without rules and applications, and an agent without a cache.
abbrev pub new_sync : PolicySync
new_sync = record {
  engine = record {
    applications = [];
    policy_rules = [];
    device_group = λ _. [];
    policy_version = 0;
    relevant_apps_cache = none;
    relevant_apps_at = 0;
  };
  unbumped = 0;
  sent = [];
  cache = record { current = none; file = none };
}
