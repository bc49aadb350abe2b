-- ===== src/Deploy/Sweep.antt =====
-- The lease sweeper of server/deploy.go.
use librawatch.Common.{
  ◌≡◌, refl, sym, subst, true, false, ℕ, ◌+◌, codes, if◌then◌else◌, Bool, false, Option, none, some,
  List, [], ◌∷◌,
}
use librawatch.Common.Int.{pos, ltb_ℤ}
use librawatch.Deploy.Model.{Status, Job, Row}
use librawatch.Deploy.Store.{
  get_deploy_job_by_id, get_expired_lease_results, get_expired_pending_results,
}
use librawatch.Deploy.Dispatch.{Server, transition, apply_update, settle_job, pump_agent}
use librawatch.Shared.Command.{is_destructive_payload}

unfoldable pub is_destructive : Option Job → Bool
is_destructive none = false
is_destructive (some j) = is_destructive_payload j.type j.payload

-- A shutdown or restart whose result never came is failed, and never sent again.
unfoldable pub fail_unconfirmed : ℕ → Row → Server → Server
unfolding apply_update
fail_unconfirmed now r = apply_update now (
    transition r.job_id r.agent_id Status.failed
      (codes "execution unconfirmed after agent disconnect — NOT retried") none)

unfoldable pub fail_exhausted : ℕ → Row → Server → Server
unfolding apply_update
fail_exhausted now r = apply_update now (
    transition r.job_id r.agent_id Status.failed (codes "Lease timeout: retry limit exceeded") none)

unfoldable pub requeue : ℕ → Row → Server → Server
unfolding apply_update pump_agent
requeue now r s =
    (pump_agent now r.agent_id (
      apply_update now
        (transition r.job_id r.agent_id Status.pending (codes "Lease timeout: retrying")
          (some (r.retry_count + 1)))
        s)).0

unfoldable pub lease_outcome : ℕ → Row → Server → Server
unfolding is_destructive fail_unconfirmed fail_exhausted requeue
lease_outcome now r s =
    if is_destructive (get_deploy_job_by_id r.job_id s.db)
    then fail_unconfirmed now r s
    else if ltb_ℤ r.max_retry (pos (r.retry_count + 1))
    then fail_exhausted now r s
    else requeue now r s

unfoldable pub sweep_lease : ℕ → Row → Server → Server
unfolding lease_outcome settle_job
sweep_lease now r s = settle_job r.job_id (lease_outcome now r s)

-- A proof about the outcome is one for each branch, with its tests.
pub lease_outcome_cases {ℓ} :
    (P : Server → Type ℓ) (now : ℕ) (r : Row) (s : Server)
    → (is_destructive (get_deploy_job_by_id r.job_id s.db) ≡ true → P (fail_unconfirmed now r s))
    → (is_destructive (get_deploy_job_by_id r.job_id s.db) ≡ false → P (fail_exhausted now r s))
    → (is_destructive (get_deploy_job_by_id r.job_id s.db) ≡ false
        → ltb_ℤ r.max_retry (pos (r.retry_count + 1)) ≡ false
        → P (requeue now r s))
    → P (lease_outcome now r s)
lease_outcome_cases P now r s a b c =
    by_tests (is_destructive (get_deploy_job_by_id r.job_id s.db))
      (ltb_ℤ r.max_retry (pos (r.retry_count + 1))) a b c (unfold lease_outcome in refl)
  where
    by_tests :
        (d e : Bool)
        → (d ≡ true → P (fail_unconfirmed now r s))
        → (d ≡ false → P (fail_exhausted now r s))
        → (d ≡ false → e ≡ false → P (requeue now r s))
        → lease_outcome now r s ≡ (
            if d
            then fail_unconfirmed now r s
            else if e
            then fail_exhausted now r s
            else requeue now r s)
        → P (lease_outcome now r s)
    by_tests true e a b c h = subst P (sym h) (a refl)
    by_tests false true a b c h = subst P (sym h) (b refl)
    by_tests false false a b c h = subst P (sym h) (c refl refl)

unfoldable pub sweep_leases : ℕ → List Row → Server → Server
unfolding sweep_lease
sweep_leases now [] s = s
sweep_leases now (r ∷ rs) s = sweep_leases now rs (sweep_lease now r s)

unfoldable pub sweep_expired_leases : ℕ → Server → Server
unfolding sweep_leases get_expired_lease_results
sweep_expired_leases now s = sweep_leases now (get_expired_lease_results now s.db) s

unfoldable pub expire_pending : ℕ → List Row → Server → Server
unfolding apply_update settle_job
expire_pending now [] s = s
expire_pending now (r ∷ rs) s = expire_pending now rs (
    settle_job r.job_id (
      apply_update now
        (transition r.job_id r.agent_id Status.expired (codes "Expired before execution") none) s))

unfoldable pub sweep_expired_pending : ℕ → Server → Server
unfolding expire_pending get_expired_pending_results
sweep_expired_pending now s = expire_pending now (get_expired_pending_results now s.db) s

-- One tick of StartLeaseSweeper.
unfoldable pub lease_sweeper_tick : ℕ → Server → Server
unfolding sweep_expired_leases sweep_expired_pending
lease_sweeper_tick now s = sweep_expired_pending now (sweep_expired_leases now s)
