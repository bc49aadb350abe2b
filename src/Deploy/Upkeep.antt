-- ===== src/Deploy/Upkeep.antt =====
-- PumpAgent and the lease sweeper keep the invariant of the tables.
use librawatch.Common.{ℕ, ◌+◌, ◌*◌, Text, false, List, [], ◌∷◌, ◌≡◌, refl, sym, subst}
use librawatch.Deploy.Model.{is_running, Row}
use librawatch.Deploy.Store.{ResultUpdate, get_expired_lease_results, get_expired_pending_results}
use librawatch.Deploy.Invariant.{claim-Inv, update-Inv, settle-Inv}
use librawatch.Deploy.Statements.{Inv}
use librawatch.Deploy.Dispatch.{Server, apply_update, settle_job, pump_agent}
use librawatch.Deploy.Pump.{pump_agent_rule}
use librawatch.Deploy.Sweep.{
  fail_unconfirmed, fail_exhausted, requeue, lease_outcome, lease_outcome_cases, sweep_lease,
  sweep_leases, sweep_expired_leases, expire_pending, lease_sweeper_tick,
}

pub pump_agent-Inv :
    (now : ℕ) (agent : Text) (s : Server) → Inv s.db → Inv (pump_agent now agent s).0.db
pump_agent-Inv now agent s v = pump_agent_rule Inv now agent s v λ db' j attempt c.
    let claimed =
      subst Inv (sym c.after)
        (claim-Inv (now + s.lease_minutes * 60) c.row.job_id agent s.db v c.idle) in
    (claimed, update-Inv now _ db' refl claimed)

apply_update-Inv :
    (now : ℕ) (u : ResultUpdate) (s : Server)
    → is_running u.status ≡ false
    → Inv s.db
    → Inv (apply_update now u s).db
unfolding apply_update
apply_update-Inv now u s h v = update-Inv now u s.db h v

sweep_lease-Inv : (now : ℕ) (r : Row) (s : Server) → Inv s.db → Inv (sweep_lease now r s).db
unfolding sweep_lease settle_job
sweep_lease-Inv now r s v = settle-Inv r.job_id (lease_outcome now r s).db (
    lease_outcome_cases (λ t. Inv t.db) now r s
      (λ _. unfold fail_unconfirmed in apply_update-Inv now _ s refl v)
      (λ _. unfold fail_exhausted in apply_update-Inv now _ s refl v)
      (λ _ _. unfold requeue in pump_agent-Inv now r.agent_id _ (apply_update-Inv now _ s refl v)))

sweep_leases-Inv :
    (now : ℕ) (rs : List Row) (s : Server) → Inv s.db → Inv (sweep_leases now rs s).db
unfolding sweep_leases
sweep_leases-Inv now [] s v = v
sweep_leases-Inv now (r ∷ rs) s v =
    sweep_leases-Inv now rs (sweep_lease now r s) (sweep_lease-Inv now r s v)

expire_pending-Inv :
    (now : ℕ) (rs : List Row) (s : Server) → Inv s.db → Inv (expire_pending now rs s).db
unfolding expire_pending
expire_pending-Inv now [] s v = v
expire_pending-Inv now (r ∷ rs) s v =
    expire_pending-Inv now rs _
      (unfold settle_job in settle-Inv r.job_id _ (apply_update-Inv now _ s refl v))

pub tick-Inv : (now : ℕ) (s : Server) → Inv s.db → Inv (lease_sweeper_tick now s).db
unfolding lease_sweeper_tick
tick-Inv now s v =
    expire_pending-Inv now (get_expired_pending_results now (sweep_expired_leases now s).db)
      (sweep_expired_leases now s)
      (unfold sweep_expired_leases in sweep_leases-Inv now (get_expired_lease_results now s.db) s v)
