-- ===== src/Policy/Current.antt =====
-- That an agent whose version is the server's has the server's policy.
use librawatch.Common.{
  ap, subst, ℕ, zero, suc, ◌+◌, ◌≤◌, leb, Text, Bool, if_rule, Option, none, some, List, [], ◌∷◌,
  All, All-append, All-map, ◌≡◌, refl, arith,
}
use librawatch.Policy.Cache.{
  normalize_relevant_apps, PolicyCache, PolicyUpdate, current_policy_cache, set_policy_cache,
  handle_policy_update,
}
use librawatch.Policy.Server.{
  Engine, get_enabled_policy_rules, get_policy_relevant_apps, policy_update_for,
  handle_policy_version_check,
}
use librawatch.Policy.Admin.{
  is_valid_rule, insert_policy_rule, update_policy_rule, delete_policy_rule, PolicySync,
  PolicyEvent, posts_rule, patches_rule, deletes_rule, categorizes, moves_to,
  set_agent_device_group, bumps, checks, handles, write, bump_policy_version, sent_with,
  bump_and_broadcast, handle_next, sync_step, sync_run, new_sync,
}

-- No newer than the server, and equal to its policy where it has its version and no write waits
-- for its bump.
abbrev IsDated : ℕ → Engine → PolicyUpdate → Type 0
IsDated unbumped e u =
    (u.policy_version ≤ e.policy_version)
    × (unbumped ≡ 0
        → u.policy_version ≡ e.policy_version
        → (u.policy_rules ≡ get_enabled_policy_rules e)
          × (u.policy_apps ≡ get_policy_relevant_apps e))

abbrev IsDatedCache : ℕ → Engine → PolicyCache → Type 0
IsDatedCache unbumped e c =
    (c.version ≤ e.policy_version)
    × (unbumped ≡ 0
        → c.version ≡ e.policy_version
        → (c.rules ≡ get_enabled_policy_rules e)
          × (c.relevant_apps ≡ normalize_relevant_apps (get_policy_relevant_apps e)))

record Dated (s : PolicySync) : Type 0 where
  updates : All (IsDated s.unbumped s.engine) s.sent
  cached : IsDatedCache s.unbumped s.engine (current_policy_cache s.cache)

-- A write makes nothing newer.
write-Dated :
    (e : Engine) (s : PolicySync)
    → e.policy_version ≡ s.engine.policy_version
    → Dated s
    → Dated (write e s)
unfolding write
write-Dated e s v d = record {
  updates =
      All-map (IsDated s.unbumped s.engine) (IsDated (s.unbumped + 1) e)
        (λ u h. ((rw v h.0), λ z. absurd (omega (arith, z)))) s.sent d.updates;
  cached = ((rw v d.cached.0), λ z. absurd (omega (arith, z)));
}

new_update-IsDated :
    (agent : Text) (unbumped : ℕ) (e : Engine) → IsDated unbumped e (policy_update_for agent e)
unfolding policy_update_for
new_update-IsDated agent unbumped e = ((omega arith), λ z same. (refl, refl))

bump-Dated :
    (agent server : Text) (delivered : Bool) (k : ℕ) (s : PolicySync)
    → Dated s
    → Dated (bump_and_broadcast agent server delivered k s)
unfolding bump_and_broadcast bump_policy_version
bump-Dated agent server delivered zero s d = d
bump-Dated agent server delivered (suc n) s d =
    let e = bump_policy_version s.engine in
    record {
      updates =
          if_rule (All (IsDated n e)) delivered _ _
            (λ _.
              All-append (IsDated n e) s.sent _ (older s.sent d.updates)
                (new_update-IsDated agent n e, tt))
            (λ _. older s.sent d.updates);
      cached = ((omega (arith, d.cached.0)), λ z same. absurd (omega (arith, same, d.cached.0)));
    }
  where
    older :
        (us : List PolicyUpdate)
        → All (IsDated s.unbumped s.engine) us
        → All (IsDated n (bump_policy_version s.engine)) us
    older =
        All-map (IsDated s.unbumped s.engine) (IsDated n (bump_policy_version s.engine))
          (λ u h. ((omega (arith, h.0)), λ z same. absurd (omega (arith, same, h.0))))

check-Dated :
    (agent : Text) (reported : ℕ) (s : PolicySync)
    → Dated s
    → Dated
        (record s { sent = sent_with (handle_policy_version_check agent reported s.engine) s.sent })
unfolding handle_policy_version_check
check-Dated agent reported s d = record {
  updates =
      if_rule {A = Option PolicyUpdate}
        (λ o. All (IsDated s.unbumped s.engine) (sent_with o s.sent))
        (leb s.engine.policy_version reported) none (some (policy_update_for agent s.engine))
        (λ _. d.updates)
        (λ _.
          All-append (IsDated s.unbumped s.engine) s.sent _ d.updates
            (new_update-IsDated agent s.unbumped s.engine, tt));
  cached = d.cached;
}

handle-Dated :
    (agent server : Text) (saved : Bool) (us : List PolicyUpdate) (s : PolicySync)
    → All (IsDated s.unbumped s.engine) us
    → Dated s
    → Dated (handle_next agent server saved us s)
unfolding handle_next handle_policy_update current_policy_cache set_policy_cache
handle-Dated agent server saved [] s h d = d
handle-Dated agent server saved (u ∷ rest) s (h, hs) d = record {
  updates = hs;
  cached = (h.0, λ z same. let (r, a) = h.1 z same in (r, ap normalize_relevant_apps a));
}

module _ (agent server : Text) where
  step-Dated : (ev : PolicyEvent) (s : PolicySync) → Dated s → Dated (sync_step agent server ev s)
  unfolding sync_step
  step-Dated (posts_rule id now r) s d =
      if_rule Dated (is_valid_rule r) _ s
        (λ _.
          write-Dated (insert_policy_rule id now r s.engine) s (unfold insert_policy_rule in refl)
            d)
        (λ _. d)
  step-Dated (patches_rule id r) s d =
      if_rule Dated (is_valid_rule r) _ s
        (λ _.
          write-Dated (update_policy_rule id r s.engine) s (unfold update_policy_rule in refl) d)
        (λ _. d)
  step-Dated (deletes_rule id) s d =
      write-Dated (delete_policy_rule id s.engine) s (unfold delete_policy_rule in refl) d
  step-Dated (categorizes apps) s d = write-Dated (record s.engine { applications = apps }) s refl d
  step-Dated (moves_to group) s d = moved
    where
      moved : Dated (record s { engine = set_agent_device_group agent group s.engine })
      moved =
          unfold set_agent_device_group get_enabled_policy_rules get_policy_relevant_apps in
          record { updates = d.updates; cached = d.cached }
  step-Dated (bumps delivered) s d = bump-Dated agent server delivered s.unbumped s d
  step-Dated (checks reported) s d = check-Dated agent reported s d
  step-Dated (handles saved) s d = handle-Dated agent server saved s.sent s d.updates d

  run-Dated :
      (es : List PolicyEvent) (s : PolicySync) → Dated s → Dated (sync_run agent server es s)
  unfolding sync_run
  run-Dated [] s d = d
  run-Dated (ev ∷ es) s d = run-Dated es (sync_step agent server ev s) (step-Dated ev s d)

  new-Dated : Dated new_sync
  unfolding current_policy_cache get_enabled_policy_rules get_policy_relevant_apps
      normalize_relevant_apps
  new-Dated = record { updates = tt; cached = ((omega arith), λ z same. (refl, refl)) }

  -- After any writes to rules, applications and the agent's group, bumps, checks and updates in any
  -- order, from a database without rules and applications and an agent without a cache, when every
  -- write has been followed by its bump, an agent whose cache has the server's version has the
  -- enabled rules and the relevant applications of the server.
  pub sync_run-current :
      (es : List PolicyEvent) (s : PolicySync)
      → sync_run agent server es new_sync ≡ s
      → s.unbumped ≡ 0
      → (current_policy_cache s.cache).version ≡ s.engine.policy_version
      → ((current_policy_cache s.cache).rules ≡ get_enabled_policy_rules s.engine)
        × ((current_policy_cache s.cache).relevant_apps
            ≡ normalize_relevant_apps (get_policy_relevant_apps s.engine))
  sync_run-current es s e z same = (subst Dated e (run-Dated es new_sync new-Dated)).cached.1 z same
