-- ===== src/Tests/Deploy.antt =====
-- The theorems on the command queue of the server at concrete tables.
use librawatch.Common.{
  ℕ, ◌≤◌, Text, codes, text_eq, false, All, any, find, map_where, count_where, none, some, List, [],
  ◌∷◌, ◌≡◌, refl, inl, inr,
}
use librawatch.Common.Int.{pos}
use librawatch.Shared.Command.{is_destructive_payload}
use librawatch.Deploy.Model.{Status, JobStatus, Job, Row, Db}
use librawatch.Deploy.Store.{
  is_key, attempt_matches, ResultUpdate, update_deploy_result, get_deploy_job_by_id, lease_expired,
  new_row, insert_deploy_job, insert_deploy_result,
}
use librawatch.Deploy.Claim.{acquire_next_job}
use librawatch.Deploy.Invariant.{Reach, Reach-Inv, no_rows-Inv}
use librawatch.Deploy.Statements.{acquire, insert_job, insert_result, Inv, exec}
use librawatch.Deploy.Dispatch.{
  Server, created, send_to_agent, transition, resolve_targets, create_job,
}
use librawatch.Deploy.Report.{Report, report_update, ack_message, handle_exec_result}
use librawatch.Deploy.Fencing.{handle_exec_result-Refuses, requeue-fences}
use librawatch.Deploy.Sweep.{is_destructive, requeue, sweep_expired_leases}
use librawatch.Deploy.Silence.{run-destructive}
use librawatch.Deploy.Quiet.{IsSettled, sent_count}
use librawatch.Deploy.Fate.{Swept}
use librawatch.Deploy.Recovery.{sweep_expired_leases_complete}
use librawatch.Deploy.Retries.{IsBounded, sweep_expired_leases-IsBounded}
use librawatch.Deploy.Orphans.{NoRows, create_job-Unknown}
use librawatch.Deploy.Run.{Event, creates, connects, flushes, ticks, run}
use librawatch.Deploy.Safety.{run-Inv}

abbrev job_of : Text → Text → List Text → Job
job_of id payload targets = record {
  id = id;
  type = codes "exec";
  payload = payload;
  args = [];
  targets = targets;
  status = JobStatus.pending;
  priority = pos 0;
  expire_at = none;
  created_by = codes "admin";
  created_at = 5;
}

abbrev reboot : Job
reboot = job_of (codes "j1") (codes "Restart-Computer -Force") (codes "pc-1" ∷ [])

abbrev listing : Job
listing = job_of (codes "j2") (codes "Get-Process") (codes "pc-2" ∷ [])

abbrev running_row : Text → Text → Row
running_row job agent = record (new_row job agent Status.running [] (pos 3)) {
  lease_until = some 100;
}

abbrev tables : Db
tables = record {
  jobs = reboot ∷ listing ∷ [];
  results =
      running_row (codes "j1") (codes "pc-1")
      ∷ new_row (codes "j2") (codes "pc-2") Status.pending [] (pos 3)
      ∷ [];
}

abbrev server : Server
server = record {
  db = tables;
  agents = codes "pc-1" ∷ codes "pc-2" ∷ [];
  clients = record { agent_id = codes "pc-1"; send = [] } ∷ [];
  notified = [];
  lease_minutes = 10;
  file_checksum = λ _. none;
}

abbrev nights : List Event
nights =
    ticks 200
    ∷ connects 210 (codes "pc-1")
    ∷ flushes (codes "pc-1")
    ∷ ticks 9000
    ∷ connects 9010 (codes "pc-1")
    ∷ []

run-destructive_example :
    (sent_count (codes "j1") (codes "pc-1") (run nights server).clients
      ≤ sent_count (codes "j1") (codes "pc-1") server.clients)
    × All (IsSettled (codes "j1") (codes "pc-1")) (run nights server).db.results
unfolding is_destructive get_deploy_job_by_id is_destructive_payload find text_eq is_key
run-destructive_example =
    run-destructive (codes "j1") (codes "pc-1") nights server refl ((λ _. refl), ((λ e. cc), tt))
      (tt, (tt, (tt, (tt, (tt, tt)))))

sweep_complete_example :
    Swept 200 server.db.results (sweep_expired_leases 200 server).db.results
    × All (λ r. lease_expired 200 r ≡ false) (sweep_expired_leases 200 server).db.results
sweep_complete_example = sweep_expired_leases_complete 200 server

-- Statements from an empty database, and a cancelled row afterwards.
abbrev stale : Report
stale = record {
  job_id = codes "j1";
  agent_id = codes "pc-1";
  attempt = some (pos 1);
  status = codes "success";
  output = [];
  exit_code = some (pos 0);
  duration_ms = none;
}

refuses_example :
    handle_exec_result 200 stale server
    ≡ (send_to_agent (codes "pc-1") (ack_message (codes "j1")) server).0
unfolding text_eq is_key attempt_matches
refuses_example = handle_exec_result-Refuses 200 stale server refl (inr (inr refl), (inl refl, tt))

abbrev answered : Report
answered = record stale { attempt = some (pos 0) }

requeue_fences_example :
    update_deploy_result 300
      (report_update answered)
      (requeue 200 (running_row (codes "j1") (codes "pc-1")) server).db
    ≡ ((requeue 200 (running_row (codes "j1") (codes "pc-1")) server).db, 0)
requeue_fences_example =
    requeue-fences 200 300 (running_row (codes "j1") (codes "pc-1")) answered server refl refl refl
      ((λ e. refl), ((λ e. refl), tt))

abbrev cancelled_reboot : Row
cancelled_reboot = new_row (codes "j1") (codes "pc-1") Status.cancelled [] (pos 3)

abbrev cancelled_tables : Db
cancelled_tables = record tables { results = cancelled_reboot ∷ [] }

abbrev late_result : ResultUpdate
late_result = transition (codes "j1") (codes "pc-1") Status.success [] none

abbrev empty_db : Db
empty_db = record { jobs = []; results = [] }

abbrev empty_server : Server
empty_server = record server { db = empty_db }

abbrev day : List Event
day = creates 5 reboot (pos 3) ∷ connects 6 (codes "pc-1") ∷ ticks 2000 ∷ []

run_example : Inv (run day empty_server).db
unfolding resolve_targets any text_eq count_where
run_example = run-Inv day empty_server (((refl, tt), (refl, tt)), (tt, (tt, tt))) (no_rows-Inv [])

-- A claimed row of a job with three retries.
abbrev claimed_db : Db
claimed_db =
    exec (acquire 10 610 (codes "pc-2")) (
      exec (insert_result (codes "j2") (codes "pc-2") (pos 3)) (exec (insert_job listing) empty_db))

claimed_db-Inv : Inv claimed_db
unfolding exec insert_deploy_job count_where
claimed_db-Inv = Reach-Inv (
    Reach.next
      (Reach.next (Reach.next (Reach.empty empty_db refl) (insert_job listing) tt)
        (insert_result (codes "j2") (codes "pc-2") (pos 3)) refl)
      (acquire 10 610 (codes "pc-2")) tt)

bounded_example :
    All IsBounded (sweep_expired_leases 2000 (record server { db = claimed_db })).db.results
unfolding exec insert_deploy_job insert_deploy_result acquire_next_job text_eq find count_where
    map_where
bounded_example =
    sweep_expired_leases-IsBounded 2000 (record server { db = claimed_db }) claimed_db-Inv
      (inl refl, tt)

abbrev stray : Job
stray = job_of (codes "j9") (codes "Get-Process") (codes "pc-7" ∷ [])

orphan_example :
    ((create_job 50 stray (pos 3) server).1
      ≡ created (record stray { status = JobStatus.dispatched; created_at = 50 }))
    × NoRows (codes "j9") (create_job 50 stray (pos 3) server).0.db.results
    × ((later : ℕ) (msg : Report)
        → msg.job_id ≡ codes "j9"
        → let db = (create_job 50 stray (pos 3) server).0.db in
          update_deploy_result later (report_update msg) db ≡ (db, 0))
unfolding any text_eq get_deploy_job_by_id find
orphan_example =
    create_job-Unknown 50 stray (pos 3) server refl (λ e. cc) (refl, tt) refl (refl, (refl, tt))
