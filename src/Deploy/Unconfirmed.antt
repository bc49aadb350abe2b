-- ===== src/Deploy/Unconfirmed.antt =====
-- The pump and the sweeper do not send a settled shutdown or restart.
use librawatch.Common.{
  ℕ, ◌+◌, ◌*◌, Text, text_eq, text_eq_sound, text_eq_iff, true, false, ◌&&◌, Option, none, some,
  List, [], ◌∷◌, All, All-mem, map_where, find, ◌≡◌, refl, sym, subst, ap, ◌∙◌, arith,
}
use librawatch.Deploy.Model.{Status, JobStatus, is_pending, Job, Row, Db}
use librawatch.Deploy.Store.{
  is_key, update_job_status, get_deploy_job_by_id, get_expired_lease_results,
}
use librawatch.Deploy.Claim.{waits_on, claim, acquire_next_job}
use librawatch.Deploy.Invariant.{results-update_job_status}
use librawatch.Deploy.Selection.{job_id_of, Claims, acquire_next_job-Claims, acquire_next_job-none}
use librawatch.Deploy.Dispatch.{Server, dispatch, deliver, pump_agent, settle_job}
use librawatch.Deploy.Sweep.{
  is_destructive, fail_unconfirmed, fail_exhausted, requeue, lease_outcome, lease_outcome_cases,
  sweep_lease, sweep_leases, sweep_expired_leases,
}
use librawatch.Deploy.Quiet.{
  IsSettled, claim-IsSettled, Quiet, apply_update-Quiet, dispatch-Quiet, sent_or_released-Quiet,
}

pending_elsewhere :
    (d a agent : Text) (r : Row)
    → IsSettled d a r
    → waits_on agent r ≡ true
    → text_eq r.job_id d && text_eq agent a ≡ false
unfolding waits_on is_key
pending_elsewhere d a agent r h w =
    ground (arith, text_eq_iff r.agent_id agent, text_eq_iff agent a, text_eq_iff r.agent_id a)

deliver-Quiet :
    (now lease : ℕ) (d a : Text) (n : ℕ) (agent : Text) (s : Server) (db : Db)
    (got : Option (Job × ℕ))
    → acquire_next_job now lease agent s.db ≡ (db, got)
    → Quiet d a n s
    → Quiet d a n (deliver now agent (record s { db = db }) got).0
unfolding deliver
deliver-Quiet now lease d a n agent s db none e q =
    let kept =
      acquire_next_job-none now lease agent s.db (ap (λ (r : Db × Option (Job × ℕ)). r.1) e) in
    let same = sym (ap (λ (r : Db × Option (Job × ℕ)). r.0) e) ∙ kept.0 in
    subst (λ x. Quiet d a n (record s { db = x })) (sym same) q
deliver-Quiet now lease d a n agent s db (some (job, attempt)) e q =
    let c =
      subst (λ x. Claims now lease agent s.db x job attempt)
        (ap (λ (r : Db × Option (Job × ℕ)). r.0) e)
        (acquire_next_job-Claims now lease agent s.db job attempt
          (ap (λ (r : Db × Option (Job × ℕ)). r.1) e)) in
    let elsewhere =
      pending_elsewhere d a agent c.row (All-mem _ s.db.results c.stored q.settled)
        c.eligible.waits in
    let other : text_eq job.id d && text_eq agent a ≡ false =
      subst (λ i. text_eq i d && text_eq agent a ≡ false)
        (sym (job_id_of c.row job s.db c.eligible.joins)) elsewhere in
    let claimed : Quiet d a n (record s { db = db }) =
      subst (λ x. Quiet d a n (record s { db = x })) (sym c.after)
        (record {
          settled = claim-IsSettled d a lease c.row.job_id agent s.db q.settled;
          sent = q.sent;
          destructive = unfold claim get_deploy_job_by_id in q.destructive;
        }) in
    sent_or_released-Quiet now d a n agent job (dispatch agent job attempt (record s { db = db }))
      other (dispatch-Quiet d a n agent job attempt (record s { db = db }) other claimed)

pub pump_agent-Quiet :
    (now : ℕ) (d a : Text) (n : ℕ) (agent : Text) (s : Server)
    → Quiet d a n s
    → Quiet d a n (pump_agent now agent s).0
unfolding pump_agent
pump_agent-Quiet now d a n agent s q =
    deliver-Quiet now (now + s.lease_minutes * 60) d a n agent s _ _ refl q

-- A change of a job's status leaves its type and payload.
pub find-marked :
    (id d : Text) (st : JobStatus) (js : List Job)
    → is_destructive (
        find
          (λ j. text_eq j.id d)
          (map_where (λ j. text_eq j.id id) (λ j. record j { status = st }) js))
      ≡ is_destructive (find (λ j. text_eq j.id d) js)
unfolding find map_where is_destructive
find-marked id d st [] = refl
find-marked id d st (j ∷ js) = ground (arith, find-marked id d st js)

pub settle_job-Quiet :
    (d a : Text) (n : ℕ) (id : Text) (s : Server) → Quiet d a n s → Quiet d a n (settle_job id s)
unfolding settle_job
settle_job-Quiet d a n id s q = record {
  settled = subst (All (IsSettled d a)) (sym (results-update_job_status id s.db)) q.settled;
  sent = q.sent;
  destructive = destructive-update_job_status ∙ q.destructive;
}
  where
    destructive-update_job_status :
        is_destructive (get_deploy_job_by_id d (update_job_status id s.db))
        ≡ is_destructive (get_deploy_job_by_id d s.db)
    destructive-update_job_status =
        unfold get_deploy_job_by_id update_job_status in
        ground (arith, find-marked id d JobStatus.done s.db.jobs)

another_job :
    (d a : Text) (n : ℕ) (r : Row) (s : Server)
    → is_destructive (get_deploy_job_by_id r.job_id s.db) ≡ false
    → Quiet d a n s
    → text_eq r.job_id d && text_eq r.agent_id a ≡ true
    → is_pending Status.pending ≡ false
another_job d a n r s safe q e =
    let same : text_eq r.job_id d ≡ true = ground arith in
    cc (
      subst (λ i. is_destructive (get_deploy_job_by_id i s.db) ≡ false) (text_eq_sound _ _ same)
          safe,
      q.destructive,
    )

sweep_lease-Quiet :
    (now : ℕ) (d a : Text) (n : ℕ) (r : Row) (s : Server)
    → Quiet d a n s
    → Quiet d a n (sweep_lease now r s)
unfolding sweep_lease
sweep_lease-Quiet now d a n r s q = settle_job-Quiet d a n r.job_id (lease_outcome now r s) (
    lease_outcome_cases (Quiet d a n) now r s
      (λ _. unfold fail_unconfirmed in apply_update-Quiet now d a n _ s (λ _. refl) q)
      (λ _. unfold fail_exhausted in apply_update-Quiet now d a n _ s (λ _. refl) q)
      (λ safe _.
        unfold requeue in
        pump_agent-Quiet now d a n r.agent_id _
          (apply_update-Quiet now d a n _ s (another_job d a n r s safe q) q)))

sweep_leases-Quiet :
    (now : ℕ) (d a : Text) (n : ℕ) (rs : List Row) (s : Server)
    → Quiet d a n s
    → Quiet d a n (sweep_leases now rs s)
unfolding sweep_leases
sweep_leases-Quiet now d a n [] s q = q
sweep_leases-Quiet now d a n (r ∷ rs) s q =
    sweep_leases-Quiet now d a n rs (sweep_lease now r s) (sweep_lease-Quiet now d a n r s q)

pub sweep_expired_leases-Quiet :
    (now : ℕ) (d a : Text) (n : ℕ) (s : Server)
    → Quiet d a n s
    → Quiet d a n (sweep_expired_leases now s)
unfolding sweep_expired_leases
sweep_expired_leases-Quiet now d a n s q =
    sweep_leases-Quiet now d a n (get_expired_lease_results now s.db) s q
