-- ===== src/Deploy/Fencing.antt =====
-- A result is recorded once, for the attempt that it answers, and never over a cancellation.
use librawatch.Common.{
  ℕ, Text, text_eq, false, Option, some, [], All, All-map, All-map_where, ◌+◌, if◌then◌else◌,
  map_where_none, count_where_zero, ◌≡◌, refl, ◌⊎◌, inl, inr, arith, true, none, codes, Bool-cases,
  subst, sym,
}
use librawatch.Common.Int.{ℤ, pos}
use librawatch.Deploy.Model.{is_cancelled, Status, Row, Db}
use librawatch.Deploy.Store.{
  ResultUpdate, attempt_matches, is_key, updates, updated, update_deploy_result,
}
use librawatch.Deploy.Claim.{claimed_row, claim}
use librawatch.Deploy.Sweep.{requeue}
use librawatch.Deploy.Pump.{pump_agent_rule}
use librawatch.Deploy.Dispatch.{Server, apply_update, send_to_agent, transition}
use librawatch.Deploy.Report.{Report, report_update, ack_message, record_report, handle_exec_result}

-- The row is not of that job and agent, or it is cancelled, or at another attempt.
abbrev pub Refuses : Text → Text → Option ℤ → Row → Type 0
Refuses job agent attempt r =
    (is_key job agent r ≡ false)
    ⊎ (r.status ≡ Status.cancelled)
    ⊎ (attempt_matches attempt r.retry_count ≡ false)

Refuses-updates :
    (u : ResultUpdate) (r : Row)
    → Refuses u.job_id u.agent_id u.expected_attempt r
    → updates u r ≡ false
unfolding updates
Refuses-updates u r h = ground arith

-- An update that every row refuses reaches no row and changes nothing.
pub update-Refuses :
    (now : ℕ) (u : ResultUpdate) (db : Db)
    → All (Refuses u.job_id u.agent_id u.expected_attempt) db.results
    → update_deploy_result now u db ≡ (db, 0)
unfolding update_deploy_result
update-Refuses now u db h =
    let none_reached = All-map _ _ (Refuses-updates u) db.results h in
    rw (
      map_where_none (updates u) (updated now u) db.results none_reached,
      count_where_zero (updates u) db.results none_reached,
    )

-- A result of a superseded attempt, or of a cancelled job, leaves the tables as they are and
-- sends no command: the agent gets its acknowledgement, and nothing else happens.
pub handle_exec_result-Refuses :
    (now : ℕ) (msg : Report) (s : Server)
    → text_eq msg.job_id [] ≡ false
    → All (Refuses msg.job_id msg.agent_id msg.attempt) s.db.results
    → handle_exec_result now msg s ≡ (send_to_agent msg.agent_id (ack_message msg.job_id) s).0
unfolding handle_exec_result report_update
handle_exec_result-Refuses now msg s named h =
    rw (named, handle_exec_result, record_report, update-Refuses now (report_update msg) s.db h)
      refl

-- The row is not of that job and agent, or at another attempt.
abbrev Fences : Text → Text → Option ℤ → Row → Type 0
Fences job agent attempt r =
    is_key job agent r ≡ true → attempt_matches attempt r.retry_count ≡ false

claim-Fences :
    (job agent : Text) (attempt : Option ℤ) (lease : ℕ) (j b : Text) (db : Db)
    → All (Fences job agent attempt) db.results
    → All (Fences job agent attempt) (claim lease j b db).results
unfolding claim
claim-Fences job agent attempt lease j b db =
    All-map_where _ _ (is_key j b) (claimed_row lease) keep db.results
  where
    keep :
        (r : Row)
        → Fences job agent attempt r
        → Fences job agent attempt (if is_key j b r then claimed_row lease r else r)
    keep r h = unfold claimed_row is_key in ground arith

-- An update that counts no retry.
update-Fences :
    (now : ℕ) (job agent : Text) (attempt : Option ℤ) (u : ResultUpdate) (db : Db)
    → u.retry_count ≡ none
    → All (Fences job agent attempt) db.results
    → All (Fences job agent attempt) (update_deploy_result now u db).0.results
unfolding update_deploy_result
update-Fences now job agent attempt u db e =
    All-map_where _ _ (updates u) (updated now u) keep db.results
  where
    keep :
        (r : Row)
        → Fences job agent attempt r
        → Fences job agent attempt (if updates u r then updated now u r else r)
    keep r h = elim (Bool-cases (updates u r)) [
      | inl b ↦ rw b (unfold updated is_key in rw e h)
      | inr b ↦ rw b h
    ]

-- Once the sweeper has put a row back in the queue, and perhaps sent its job again, the result of
-- the attempt before reaches no row and changes nothing, whatever its status says, when no row of
-- that job and agent has been cancelled.
pub requeue-fences :
    (now later : ℕ) (r : Row) (msg : Report) (s : Server)
    → msg.job_id ≡ r.job_id
    → msg.agent_id ≡ r.agent_id
    → msg.attempt ≡ some (pos r.retry_count)
    → All (λ x. is_key r.job_id r.agent_id x ≡ true → is_cancelled x.status ≡ false) s.db.results
    → let db = (requeue now r s).db in update_deploy_result later (report_update msg) db ≡ (db, 0)
unfolding report_update requeue
requeue-fences now later r msg s p q e live = update-Refuses later (report_update msg) _ (
    All-map (Fences msg.job_id msg.agent_id msg.attempt) _ refuses _ (
      pump_agent_rule (λ db. All (Fences msg.job_id msg.agent_id msg.attempt) db.results) now
        r.agent_id _ fenced_rows
        λ db' j attempt c.
          let claimed =
            subst (λ (x : Db). All (Fences msg.job_id msg.agent_id msg.attempt) x.results)
              (sym c.after) (claim-Fences _ _ _ _ c.row.job_id r.agent_id _ fenced_rows) in
          (claimed, update-Fences now _ _ _ _ db' refl claimed)))
  where
    u : ResultUpdate
    u =
        transition r.job_id r.agent_id Status.pending (codes "Lease timeout: retrying")
          (some (r.retry_count + 1))

    refuses :
        (x : Row)
        → Fences msg.job_id msg.agent_id msg.attempt x
        → Refuses msg.job_id msg.agent_id msg.attempt x
    refuses x f = elim (Bool-cases (is_key msg.job_id msg.agent_id x)) [
      | inl b ↦ inr (inr (f b))
      | inr b ↦ inl b
    ]

    fenced :
        (x : Row)
        → (is_key r.job_id r.agent_id x ≡ true → is_cancelled x.status ≡ false)
        → Fences msg.job_id msg.agent_id msg.attempt (if updates u x then updated now u x else x)
    fenced x f = unfold updates updated attempt_matches is_key in ground arith

    fenced_rows : All (Fences msg.job_id msg.agent_id msg.attempt) (apply_update now u s).db.results
    fenced_rows =
        unfold apply_update update_deploy_result in
        All-map_where _ _ (updates u) (updated now u) fenced s.db.results live
