-- ===== src/Deploy/Retries.antt =====
-- The lease sweep never charges a row more retries than it has.
use mathlib.Core.List.{Memᴰ}
use librawatch.Common.{
  ℕ, ◌+◌, ◌*◌, Text, true, false, none, some, List, [], ◌∷◌, All, All-map, All-map_where,
  All-of_mem, All-unique, All-mem, if_rule, All-filter, filter, if◌then◌else◌, ◌≡◌, refl, sym,
  subst, ◌⊎◌, arith,
}
use librawatch.Common.Int.{pos, ltb_ℤ, ◌≤ℤ◌}
use librawatch.Deploy.Model.{Status, Row, Db}
use librawatch.Deploy.Store.{
  ResultUpdate, is_key, updates, updated, update_deploy_result, lease_expired,
  get_expired_lease_results,
}
use librawatch.Deploy.Claim.{claimed_row, claim}
use librawatch.Deploy.Invariant.{results-update_job_status}
use librawatch.Deploy.Statements.{Inv}
use librawatch.Deploy.Dispatch.{Server, transition, apply_update, settle_job, pump_agent}
use librawatch.Deploy.Pump.{pump_agent_rule}
use librawatch.Deploy.Recovery.{is_key_self}
use librawatch.Deploy.Sweep.{
  fail_unconfirmed, fail_exhausted, requeue, lease_outcome, lease_outcome_cases, sweep_lease,
  sweep_leases, sweep_expired_leases,
}

abbrev pub IsBounded : Row → Type 0
IsBounded r = (r.retry_count ≡ 0) ⊎ (pos r.retry_count ≤ℤ r.max_retry)

-- The rows of the table with a swept row's key have that row's limit.
abbrev Agrees : Row → Row → Type 0
Agrees r x = is_key r.job_id r.agent_id x ≡ true → x.max_retry ≡ r.max_retry

-- The table is within its limits, and agrees with the rows that are still to be swept.
abbrev Within : List Row → Row → Type 0
Within rs x = IsBounded x × All (λ r. Agrees r x) rs

updated-Agrees :
    (now : ℕ) (u : ResultUpdate) (rs : List Row) (x : Row)
    → All (λ r. Agrees r x) rs
    → All (λ r. Agrees r (updated now u x)) rs
unfolding updated is_key
updated-Agrees now u [] x h = tt
updated-Agrees now u (r ∷ rs) x h = (h.0, updated-Agrees now u rs x h.1)

claimed-Agrees :
    (lease : ℕ) (rs : List Row) (x : Row)
    → All (λ r. Agrees r x) rs
    → All (λ r. Agrees r (claimed_row lease x)) rs
unfolding claimed_row is_key
claimed-Agrees lease [] x h = tt
claimed-Agrees lease (r ∷ rs) x h = (h.0, claimed-Agrees lease rs x h.1)

update-Within :
    (now : ℕ) (u : ResultUpdate) (rs : List Row) (db : Db)
    → u.retry_count ≡ none
    → All (Within rs) db.results
    → All (Within rs) (update_deploy_result now u db).0.results
unfolding update_deploy_result
update-Within now u rs db e = All-map_where _ _ (updates u) (updated now u) keep db.results
  where
    bounded : (x : Row) → IsBounded x → IsBounded (updated now u x)
    bounded x b = unfold updated in ground arith

    keep : (x : Row) → Within rs x → Within rs (if updates u x then updated now u x else x)
    keep x (b, a) =
        if_rule (Within rs) (updates u x) (updated now u x) x
          (λ _. (bounded x b, updated-Agrees now u rs x a)) (λ _. (b, a))

claim-Within :
    (lease : ℕ) (j agent : Text) (rs : List Row) (db : Db)
    → All (Within rs) db.results
    → All (Within rs) (claim lease j agent db).results
unfolding claim
claim-Within lease j agent rs db =
    All-map_where _ _ (is_key j agent) (claimed_row lease) keep db.results
  where
    keep : (x : Row) → Within rs x → Within rs (if is_key j agent x then claimed_row lease x else x)
    keep x (b, a) =
        if_rule (Within rs) (is_key j agent x) (claimed_row lease x) x
          (λ _. (unfold claimed_row in b, claimed-Agrees lease rs x a)) (λ _. (b, a))

pump_agent-Within :
    (now : ℕ) (rs : List Row) (agent : Text) (s : Server)
    → All (Within rs) s.db.results
    → All (Within rs) (pump_agent now agent s).0.db.results
pump_agent-Within now rs agent s o =
    pump_agent_rule (λ db. All (Within rs) db.results) now agent s o
      λ db' j attempt c.
        let claimed =
          subst (λ (x : Db). All (Within rs) x.results) (sym c.after)
            (claim-Within (now + s.lease_minutes * 60) c.row.job_id agent rs s.db o) in
        (claimed, update-Within now _ rs db' refl claimed)

-- The requeue of the first row to be swept.
charge-Within :
    (now : ℕ) (r : Row) (rs : List Row) (output : Text) (db : Db)
    → ltb_ℤ r.max_retry (pos (r.retry_count + 1)) ≡ false
    → All (Within (r ∷ rs)) db.results
    → All
        (Within rs)
        (update_deploy_result now
          (transition r.job_id r.agent_id Status.pending output (some (r.retry_count + 1)))
          db).0.results
unfolding update_deploy_result
charge-Within now r rs output db room =
    All-map_where _ _ (updates u) (updated now u) keep db.results
  where
    u : ResultUpdate
    u = transition r.job_id r.agent_id Status.pending output (some (r.retry_count + 1))

    bounded : (x : Row) → updates u x ≡ true → Agrees r x → IsBounded (updated now u x)
    bounded x hit a = unfold updated updates in ground arith

    keep : (x : Row) → Within (r ∷ rs) x → Within rs (if updates u x then updated now u x else x)
    keep x (b, a) =
        if_rule (Within rs) (updates u x) (updated now u x) x
          (λ hit. (bounded x hit a.0, updated-Agrees now u rs x a.1)) (λ _. (b, a.1))

forget : (r : Row) (rs xs : List Row) → All (Within (r ∷ rs)) xs → All (Within rs) xs
forget r rs = All-map _ _ (λ x h. (h.0, h.1.1))

sweep_lease-Within :
    (now : ℕ) (r : Row) (rs : List Row) (s : Server)
    → All (Within (r ∷ rs)) s.db.results
    → All (Within rs) (sweep_lease now r s).db.results
unfolding sweep_lease settle_job
sweep_lease-Within now r rs s o =
    subst (All (Within rs)) (sym (results-update_job_status r.job_id (lease_outcome now r s).db)) (
      lease_outcome_cases (λ t. All (Within rs) t.db.results) now r s
        (λ _.
          unfold fail_unconfirmed apply_update in
          update-Within now _ rs s.db refl (forget r rs _ o))
        (λ _.
          unfold fail_exhausted apply_update in update-Within now _ rs s.db refl (forget r rs _ o))
        (λ _ room.
          unfold requeue in
          pump_agent-Within now rs r.agent_id _
            (unfold apply_update in charge-Within now r rs _ s.db room o)))

sweep_leases-Within :
    (now : ℕ) (rs : List Row) (s : Server)
    → All (Within rs) s.db.results
    → All (Within []) (sweep_leases now rs s).db.results
unfolding sweep_leases
sweep_leases-Within now [] s o = o
sweep_leases-Within now (r ∷ rs) s o =
    sweep_leases-Within now rs (sweep_lease now r s) (sweep_lease-Within now r rs s o)

-- Where the tables are consistent, with at most one row for a job and an agent, a sweep charges a
-- row at most the retries that its job allows: rows whose counts are within their limits stay
-- within them.
pub sweep_expired_leases-IsBounded :
    (now : ℕ) (s : Server)
    → Inv s.db
    → All IsBounded s.db.results
    → All IsBounded (sweep_expired_leases now s).db.results
unfolding sweep_expired_leases get_expired_lease_results
sweep_expired_leases-IsBounded now s v b =
    All-map _ _ (λ x h. h.0) _
      (sweep_leases-Within now (filter (lease_expired now) s.db.results) s start)
  where
    agree : (r : Row) → Memᴰ r s.db.results → All (Agrees r) s.db.results
    agree r m =
        All-unique (λ x. x.max_retry ≡ r.max_retry) (is_key r.job_id r.agent_id) r s.db.results m
          (v.one_row r.job_id r.agent_id) (is_key_self r) refl

    start : All (Within (filter (lease_expired now) s.db.results)) s.db.results
    start = All-of_mem _ s.db.results λ x m. (
      All-mem IsBounded s.db.results m b,
      All-filter (λ r. Agrees r x) (lease_expired now) s.db.results
          (All-of_mem _ s.db.results (λ r n. All-mem (Agrees r) s.db.results m (agree r n))),
    )
