-- ===== src/Deploy/Safety.antt =====
-- The invariant of the tables, kept by every event that the server handles.
use librawatch.Common.{
  ℕ, text_eq, codes, ◌==◌, false, List, [], ◌∷◌, ◌≡◌, refl, Bool-cases, inl, inr,
}
use librawatch.Deploy.Model.{parse_status, is_running}
use librawatch.Deploy.Store.{update_deploy_result}
use librawatch.Deploy.Invariant.{update-Inv, cancel-Inv, settle-Inv}
use librawatch.Deploy.Statements.{Inv}
use librawatch.Deploy.Dispatch.{
  Server, settle_job, dispatch_pending, create_job, resolve_targets, send_to_agent,
}
use librawatch.Deploy.Report.{
  Report, report_update, ack_message, note_failure, finish_report, record_report,
  handle_exec_result,
}
use librawatch.Deploy.Run.{
  Event, creates, reports, cancels_job, ticks, connects, disconnects, flushes, connect, step, run,
}
use librawatch.Deploy.Upkeep.{pump_agent-Inv, tick-Inv}
use librawatch.Deploy.Creation.{Distinct, Unrowed, create_resolved-Inv}

finish_report-Inv :
    (now : ℕ) (msg : Report) (s : Server) → Inv s.db → Inv (finish_report now msg s).db
unfolding finish_report
finish_report-Inv now msg s v =
    pump_agent-Inv now msg.agent_id _ (unfold settle_job in settle-Inv msg.job_id _ noted)
  where
    noted : Inv (note_failure msg s).db
    noted = elim (Bool-cases (text_eq msg.status (codes "error"))) [
      | inl e ↦ unfold note_failure in rw e v
      | inr e ↦ unfold note_failure in rw e v
    ]

handle_exec_result-Inv :
    (now : ℕ) (msg : Report) (s : Server)
    → is_running (parse_status msg.status) ≡ false
    → Inv s.db
    → Inv (handle_exec_result now msg s).db
unfolding handle_exec_result
handle_exec_result-Inv now msg s h v = elim (Bool-cases (text_eq msg.job_id [])) [
  | inl e ↦ rw e v
  | inr e ↦ rw e (recorded (update_deploy_result now (report_update msg) s.db).1 refl)
]
  where
    updated_db : Inv (update_deploy_result now (report_update msg) s.db).0
    updated_db = update-Inv now (report_update msg) s.db (unfold report_update in h) v

    acked :
        Inv
          (send_to_agent msg.agent_id
            (ack_message msg.job_id)
            (record s { db = (update_deploy_result now (report_update msg) s.db).0 })).0.db
    acked = unfold send_to_agent in updated_db

    recorded :
        (n : ℕ)
        → (update_deploy_result now (report_update msg) s.db).1 ≡ n
        → Inv (record_report now msg s).db
    recorded n e = elim (Bool-cases (n == 0)) [
      | inl z ↦ rw (e, record_report, z) acked
      | inr z ↦ rw (e, record_report, z) (finish_report-Inv now msg _ acked)
    ]

-- What the server relies on in an event: a new job has distinct targets and an unused id, and an
-- agent does not report that a row is running.
abbrev pub IsLawfulEvent : Event → Server → Type 0
IsLawfulEvent (creates now job n) s =
    Distinct (resolve_targets s.agents job.targets)
    × Unrowed job.id (resolve_targets s.agents job.targets) s.db.results
IsLawfulEvent (reports now msg) s = is_running (parse_status msg.status) ≡ false
IsLawfulEvent (cancels_job id) s = Unit
IsLawfulEvent (ticks now) s = Unit
IsLawfulEvent (connects now agent) s = Unit
IsLawfulEvent (disconnects agent) s = Unit
IsLawfulEvent (flushes agent) s = Unit

step-Inv : (e : Event) (s : Server) → IsLawfulEvent e s → Inv s.db → Inv (step e s).db
unfolding step
step-Inv (creates now job n) s l v =
    unfold create_job in
    create_resolved-Inv now _ n (resolve_targets s.agents job.targets) s l.0 l.1 v
step-Inv (reports now msg) s l v = handle_exec_result-Inv now msg s l v
step-Inv (cancels_job id) s l v = cancel-Inv id s.db v
step-Inv (ticks now) s l v = tick-Inv now s v
step-Inv (connects now agent) s l v =
    unfold connect dispatch_pending in pump_agent-Inv now agent _ v
step-Inv (disconnects agent) s l v = v
step-Inv (flushes agent) s l v = v

-- Every event of the sequence is lawful where it is handled.
abbrev pub IsLawfulRun : List Event → Server → Type 0
IsLawfulRun [] s = Unit
IsLawfulRun (e ∷ es) s = IsLawfulEvent e s × IsLawfulRun es (step e s)

-- Through any sequence of creations, results, cancellations, sweeps and reconnections, when each
-- new job has distinct targets and an id that no row of theirs has, and no result says that it is
-- running, an agent never has more than one command running, a job keeps at most one row for an
-- agent, and a row has a lease exactly while it runs.
pub run-Inv : (es : List Event) (s : Server) → IsLawfulRun es s → Inv s.db → Inv (run es s).db
unfolding run
run-Inv [] s l v = v
run-Inv (e ∷ es) s l v = run-Inv es (step e s) l.1 (step-Inv e s l.0 v)
