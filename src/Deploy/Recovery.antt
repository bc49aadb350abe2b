-- ===== src/Deploy/Recovery.antt =====
-- The lease sweep leaves no row behind that runs past its lease.
use librawatch.Common.{
  inr, ℕ, ◌+◌, ◌*◌, Text, text_eq_refl, true, false, none, List, [], ◌∷◌, All, All-map,
  All-map_where, filter, any, if◌then◌else◌, ◌≡◌, refl, sym, subst, arith,
}
use librawatch.Deploy.Model.{is_running, Row, Db}
use librawatch.Deploy.Store.{
  ResultUpdate, is_key, attempt_matches, updates, updated, update_deploy_result, lease_expired,
  get_expired_lease_results,
}
use librawatch.Deploy.Claim.{claimed_row, claim}
use librawatch.Deploy.Invariant.{results-update_job_status}
use librawatch.Deploy.Dispatch.{Server, apply_update, settle_job, pump_agent}
use librawatch.Deploy.Fate.{Swept, AllGo, sweep_leases-AllGo, AllGo-Swept}
use librawatch.Deploy.Pump.{pump_agent_rule}
use librawatch.Deploy.Sweep.{
  fail_unconfirmed, fail_exhausted, requeue, lease_outcome, lease_outcome_cases, sweep_lease,
  sweep_leases, sweep_expired_leases,
}

-- A row whose lease has run out is one of those still to be swept.
abbrev Outstanding : ℕ → List Row → Row → Type 0
Outstanding now rs r =
    lease_expired now r ≡ true → any (λ x. is_key x.job_id x.agent_id r) rs ≡ true

update-Outstanding :
    (now at : ℕ) (rs : List Row) (u : ResultUpdate) (db : Db)
    → is_running u.status ≡ false
    → All (Outstanding now rs) db.results
    → All (Outstanding now rs) (update_deploy_result at u db).0.results
unfolding update_deploy_result
update-Outstanding now at rs u db h = All-map_where _ _ (updates u) (updated at u) keep db.results
  where
    keep :
        (r : Row)
        → Outstanding now rs r
        → Outstanding now rs (if updates u r then updated at u r else r)
    keep r o = unfold updated lease_expired in ground arith

-- An update of the first row's key that matches every attempt settles that row.
settles :
    (now at : ℕ) (r : Row) (rs : List Row) (u : ResultUpdate) (db : Db)
    → u.job_id ≡ r.job_id
    → u.agent_id ≡ r.agent_id
    → u.expected_attempt ≡ none
    → is_running u.status ≡ false
    → All (Outstanding now (r ∷ rs)) db.results
    → All (Outstanding now rs) (update_deploy_result at u db).0.results
unfolding update_deploy_result
settles now at r rs u db p q e h = All-map_where _ _ (updates u) (updated at u) keep db.results
  where
    keep :
        (x : Row)
        → Outstanding now (r ∷ rs) x
        → Outstanding now rs (if updates u x then updated at u x else x)
    keep x o = unfold updates updated lease_expired any attempt_matches is_key in ground arith

claim-Outstanding :
    (now wait : ℕ) (rs : List Row) (j agent : Text) (db : Db)
    → All (Outstanding now rs) db.results
    → All (Outstanding now rs) (claim (now + wait) j agent db).results
unfolding claim
claim-Outstanding now wait rs j agent db =
    All-map_where _ _ (is_key j agent) (claimed_row (now + wait)) keep db.results
  where
    keep :
        (r : Row)
        → Outstanding now rs r
        → Outstanding now rs (if is_key j agent r then claimed_row (now + wait) r else r)
    keep r o = unfold claimed_row lease_expired in ground arith

pump_agent-Outstanding :
    (now : ℕ) (rs : List Row) (agent : Text) (s : Server)
    → All (Outstanding now rs) s.db.results
    → All (Outstanding now rs) (pump_agent now agent s).0.db.results
pump_agent-Outstanding now rs agent s o =
    pump_agent_rule (λ db. All (Outstanding now rs) db.results) now agent s o
      λ db' j attempt c.
        let claimed =
          subst (λ (x : Db). All (Outstanding now rs) x.results) (sym c.after)
            (claim-Outstanding now (s.lease_minutes * 60) rs c.row.job_id agent s.db o) in
        (claimed, update-Outstanding now now rs _ db' refl claimed)

sweep_lease-Outstanding :
    (now : ℕ) (r : Row) (rs : List Row) (s : Server)
    → All (Outstanding now (r ∷ rs)) s.db.results
    → All (Outstanding now rs) (sweep_lease now r s).db.results
unfolding sweep_lease settle_job
sweep_lease-Outstanding now r rs s o =
    subst (All (Outstanding now rs))
      (sym (results-update_job_status r.job_id (lease_outcome now r s).db))
      (lease_outcome_cases (λ t. All (Outstanding now rs) t.db.results) now r s
        (λ _.
          unfold fail_unconfirmed apply_update in settles now now r rs _ s.db refl refl refl refl o)
        (λ _.
          unfold fail_exhausted apply_update in settles now now r rs _ s.db refl refl refl refl o)
        (λ _ _.
          unfold requeue in
          pump_agent-Outstanding now rs r.agent_id _
            (unfold apply_update in settles now now r rs _ s.db refl refl refl refl o)))

sweep_leases-Outstanding :
    (now : ℕ) (rs : List Row) (s : Server)
    → All (Outstanding now rs) s.db.results
    → All (Outstanding now []) (sweep_leases now rs s).db.results
unfolding sweep_leases
sweep_leases-Outstanding now [] s o = o
sweep_leases-Outstanding now (r ∷ rs) s o =
    sweep_leases-Outstanding now rs (sweep_lease now r s) (sweep_lease-Outstanding now r rs s o)

pub is_key_self : (r : Row) → is_key r.job_id r.agent_id r ≡ true
unfolding is_key
is_key_self r = rw (text_eq_refl r.job_id, text_eq_refl r.agent_id)

Outstanding-cons :
    (now : ℕ) (x : Row) (rs xs : List Row)
    → All (Outstanding now rs) xs
    → All (Outstanding now (x ∷ rs)) xs
Outstanding-cons now x rs xs = All-map _ _ (λ r o e. longer r (o e)) xs
  where
    longer :
        (r : Row)
        → any (λ y. is_key y.job_id y.agent_id r) rs ≡ true
        → any (λ y. is_key y.job_id y.agent_id r) (x ∷ rs) ≡ true
    longer r h = unfold any in ground arith

-- The sweep's query returns each of those rows.
Outstanding-filter :
    (now : ℕ) (xs : List Row) → All (Outstanding now (filter (lease_expired now) xs)) xs
unfolding filter any
Outstanding-filter now [] = tt
Outstanding-filter now (x ∷ xs) =
    let rest = Outstanding-filter now xs in
    ground
      (arith, is_key_self x, rest, Outstanding-cons now x (filter (lease_expired now) xs) xs rest)

AllGo-start : (now : ℕ) (rs xs : List Row) → All (Outstanding now rs) xs → AllGo now rs xs xs
AllGo-start now rs [] h = tt
AllGo-start now rs (x ∷ xs) (o, h) = (
  (refl, refl, (λ e. inr ((unfold lease_expired in ground arith), o e))),
  AllGo-start now rs xs h,
)

-- A sweep keeps the rows and their order, and each that ran on a lease that ran out before it has
-- failed after it, waits in the queue, or runs on a lease that is still good. No row at all runs
-- on a lease that ran out.
pub sweep_expired_leases_complete :
    (now : ℕ) (s : Server)
    → Swept now s.db.results (sweep_expired_leases now s).db.results
      × All (λ r. lease_expired now r ≡ false) (sweep_expired_leases now s).db.results
unfolding sweep_expired_leases get_expired_lease_results
sweep_expired_leases_complete now s =
    let rs = filter (lease_expired now) s.db.results in
    let start = Outstanding-filter now s.db.results in
    (
      AllGo-Swept now s.db.results _
          (sweep_leases-AllGo now rs s.db.results s (AllGo-start now rs s.db.results start)),
      All-map _ _ none_left _ (sweep_leases-Outstanding now rs s start),
    )
  where
    none_left : (r : Row) → Outstanding now [] r → lease_expired now r ≡ false
    none_left r o = unfold any in ground arith
