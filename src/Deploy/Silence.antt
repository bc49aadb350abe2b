-- ===== src/Deploy/Silence.antt =====
-- A settled shutdown or restart is not sent again, whatever the server handles.
use librawatch.Common.{
  ℕ, ◌≤◌, ◌==◌, Text, codes, text_eq, text_eq_iff, true, false, ◌&&◌, if◌then◌else◌, if_rule,
  is_some, List, [], ◌∷◌, ◌++◌, All, All-append, All-map_where, map_where, count_where, filter,
  find, any, ◌≡◌, refl, ◌∙◌, arith, Bool-cases, inl, inr,
}
use librawatch.Common.Int.{ℤ}
use librawatch.Deploy.Model.{Status, is_pending, parse_status, JobStatus, Job, Row}
use librawatch.Deploy.Store.{
  is_key, update_deploy_result, insert_deploy_job, insert_deploy_result, new_row,
  get_deploy_job_by_id, get_deploy_results_by_job_id, update_deploy_job_status, cancels,
  cancelled_row, cancel_deploy_job, get_expired_pending_results,
}
use librawatch.Deploy.Dispatch.{
  Client, Server, send_to_agent, insert_for, insert_all, pump_all, mark_dispatched, create_resolved,
  create_job, resolve_targets, dispatch_pending, apply_update,
}
use librawatch.Deploy.Report.{
  Report, report_update, ack_message, note_failure, finish_report, record_report,
  handle_exec_result,
}
use librawatch.Deploy.Sweep.{
  is_destructive, sweep_expired_leases, expire_pending, sweep_expired_pending, lease_sweeper_tick,
}
use librawatch.Deploy.Run.{
  Event, creates, reports, cancels_job, ticks, connects, disconnects, flushes, remove_client,
  connect, flush, step, run,
}
use librawatch.Deploy.Quiet.{
  IsSettled, is_command_of, sent_count, sent_count-send_to, Quiet, apply_update-Quiet,
}
use librawatch.Deploy.Unconfirmed.{
  pump_agent-Quiet, find-marked, settle_job-Quiet, sweep_expired_leases-Quiet,
}

module _ (d a : Text) where
  -- The job of a change to the table is still found.
  marked-Quiet :
      (n : ℕ) (id : Text) (st : JobStatus) (s : Server)
      → Quiet d a n s
      → Quiet d a n (record s { db = update_deploy_job_status id st s.db })
  unfolding update_deploy_job_status get_deploy_job_by_id
  marked-Quiet n id st s q = record {
    settled = q.settled;
    sent = q.sent;
    destructive = find-marked id d st s.db.jobs ∙ q.destructive;
  }

  insert_for-Quiet :
      (n : ℕ) (job : Text) (max_retry : ℤ) (agent : Text) (s : Server)
      → text_eq job d ≡ false
      → Quiet d a n s
      → Quiet d a n (insert_for job max_retry agent s)
  unfolding insert_for
  insert_for-Quiet n job max_retry agent s other q =
      if_rule (Quiet d a n) (any (λ x. text_eq x agent) s.agents) _ s
        (λ _. record {
          settled =
              unfold insert_deploy_result in
              All-append (IsSettled d a) s.db.results
                (new_row job agent Status.pending [] max_retry ∷ []) q.settled (fresh, tt);
          sent = q.sent;
          destructive = unfold insert_deploy_result get_deploy_job_by_id in q.destructive;
        })
        (λ _. q)
    where
      fresh : IsSettled d a (new_row job agent Status.pending [] max_retry)
      fresh e = let same : text_eq job d ≡ true = (unfold is_key in ground arith) in cc

  insert_all-Quiet :
      (n : ℕ) (job : Text) (max_retry : ℤ) (agents : List Text) (s : Server)
      → text_eq job d ≡ false
      → Quiet d a n s
      → Quiet d a n (insert_all job max_retry agents s)
  unfolding insert_all
  insert_all-Quiet n job max_retry [] s other q = q
  insert_all-Quiet n job max_retry (b ∷ agents) s other q =
      insert_all-Quiet n job max_retry agents (insert_for job max_retry b s) other
        (insert_for-Quiet n job max_retry b s other q)

  pump_all-Quiet :
      (n now : ℕ) (agents : List Text) (s : Server)
      → Quiet d a n s
      → Quiet d a n (pump_all now agents s)
  unfolding pump_all
  pump_all-Quiet n now [] s q = q
  pump_all-Quiet n now (b ∷ agents) s q =
      pump_all-Quiet n now agents _ (pump_agent-Quiet now d a n b s q)

  -- A job that is found is found when another is added behind it.
  destructive-append :
      (job : Job) (js : List Job)
      → is_destructive (find (λ j. text_eq j.id d) js) ≡ true
      → is_destructive (find (λ j. text_eq j.id d) (js ++ job ∷ [])) ≡ true
  unfolding find
  destructive-append job [] h = unfold is_destructive in cc
  destructive-append job (j ∷ js) h = ground (arith, destructive-append job js)

  inserted-Quiet :
      (n : ℕ) (job : Job) (s : Server)
      → Quiet d a n s
      → Quiet d a n (record s { db = insert_deploy_job job s.db })
  unfolding insert_deploy_job get_deploy_job_by_id
  inserted-Quiet n job s q = record {
    settled = q.settled;
    sent = q.sent;
    destructive = destructive-append job s.db.jobs q.destructive;
  }

  mark_dispatched-Quiet :
      (n : ℕ) (job : Job) (s : Server) → Quiet d a n s → Quiet d a n (mark_dispatched job s).0
  unfolding mark_dispatched
  mark_dispatched-Quiet n job s q =
      if_rule {A = Server × Job} (λ r. Quiet d a n r.0)
        (any (λ r. is_pending r.status) (get_deploy_results_by_job_id job.id s.db)) _ _ (λ _. q)
        (λ _. marked-Quiet n job.id JobStatus.dispatched s q)

  create_resolved-Quiet :
      (n now : ℕ) (job : Job) (max_retry : ℤ) (agents : List Text) (s : Server)
      → text_eq job.id d ≡ false
      → Quiet d a n s
      → Quiet d a n (create_resolved now job max_retry agents s).0
  unfolding create_resolved
  create_resolved-Quiet n now job max_retry [] s other q = q
  create_resolved-Quiet n now job max_retry (b ∷ agents) s other q =
      elim (Bool-cases (is_some (get_deploy_job_by_id job.id s.db))) [
        | inl clash ↦ rw clash q
        | inr new ↦ rw new (
            mark_dispatched-Quiet n job _ (
              pump_all-Quiet n now (b ∷ agents) _ (
                insert_all-Quiet n job.id max_retry (b ∷ agents) _ other
                  (inserted-Quiet n job s q))))
      ]

  noted-Quiet :
      (n : ℕ) (msg : Report) (s : Server) → Quiet d a n s → Quiet d a n (note_failure msg s)
  unfolding note_failure
  noted-Quiet n msg s q =
      if_rule (Quiet d a n) (text_eq msg.status (codes "error")) _ s
        (λ _. record { settled = q.settled; sent = q.sent; destructive = q.destructive }) (λ _. q)

  finish_report-Quiet :
      (n now : ℕ) (msg : Report) (s : Server)
      → Quiet d a n s
      → Quiet d a n (finish_report now msg s)
  unfolding finish_report
  finish_report-Quiet n now msg s q =
      pump_agent-Quiet now d a n msg.agent_id _
        (settle_job-Quiet d a n msg.job_id _ (noted-Quiet n msg s q))

  ack-other : (job agent : Text) → is_command_of d (ack_message job) && text_eq agent a ≡ false
  unfolding is_command_of ack_message
  ack-other job agent =
      ground (arith, text_eq_iff (codes "exec_result_ack") (codes "exec_result_ack"))

  acked-Quiet :
      (n : ℕ) (job agent : Text) (s : Server)
      → Quiet d a n s
      → Quiet d a n (send_to_agent agent (ack_message job) s).0
  unfolding send_to_agent
  acked-Quiet n job agent s q = record {
    settled = q.settled;
    sent = sent_count-send_to d a agent (ack_message job) s.clients (ack-other job agent) ∙ q.sent;
    destructive = q.destructive;
  }

  handle_exec_result-Quiet :
      (n now : ℕ) (msg : Report) (s : Server)
      → is_pending (parse_status msg.status) ≡ false
      → Quiet d a n s
      → Quiet d a n (handle_exec_result now msg s)
  unfolding handle_exec_result
  handle_exec_result-Quiet n now msg s h q =
      if_rule (Quiet d a n) (text_eq msg.job_id []) s (record_report now msg s) (λ _. q)
        (λ _. recorded (update_deploy_result now (report_update msg) s.db).1 refl)
    where
      acked :
          Quiet d a n
            (send_to_agent msg.agent_id
              (ack_message msg.job_id)
              (record s { db = (update_deploy_result now (report_update msg) s.db).0 })).0
      acked = acked-Quiet n msg.job_id msg.agent_id _ (
          unfold apply_update in
          apply_update-Quiet now d a n (report_update msg) s (λ _. unfold report_update in h) q)

      recorded :
          (k : ℕ)
          → (update_deploy_result now (report_update msg) s.db).1 ≡ k
          → Quiet d a n (record_report now msg s)
      recorded k e = elim (Bool-cases (k == 0)) [
        | inl z ↦ rw (e, record_report, z) acked
        | inr z ↦ rw (e, record_report, z) (finish_report-Quiet n now msg _ acked)
      ]

  cancelled-Quiet :
      (n : ℕ) (id : Text) (s : Server)
      → Quiet d a n s
      → Quiet d a n (record s { db = cancel_deploy_job id s.db })
  unfolding cancel_deploy_job
  cancelled-Quiet n id s q =
      let m = marked-Quiet n id JobStatus.cancelled s q in
      record {
        settled = All-map_where _ _ (cancels id) cancelled_row keep _ m.settled;
        sent = m.sent;
        destructive = unfold get_deploy_job_by_id in m.destructive;
      }
    where
      keep :
          (r : Row) → IsSettled d a r → IsSettled d a (if cancels id r then cancelled_row r else r)
      keep r s = unfold cancels cancelled_row is_key in ground arith

  expire_pending-Quiet :
      (n now : ℕ) (rs : List Row) (s : Server)
      → Quiet d a n s
      → Quiet d a n (expire_pending now rs s)
  unfolding expire_pending
  expire_pending-Quiet n now [] s q = q
  expire_pending-Quiet n now (r ∷ rs) s q =
      expire_pending-Quiet n now rs _
        (settle_job-Quiet d a n r.job_id _ (apply_update-Quiet now d a n _ s (λ _. refl) q))

  tick-Quiet : (n now : ℕ) (s : Server) → Quiet d a n s → Quiet d a n (lease_sweeper_tick now s)
  unfolding lease_sweeper_tick sweep_expired_pending
  tick-Quiet n now s q =
      expire_pending-Quiet n now (get_expired_pending_results now (sweep_expired_leases now s).db) _
        (sweep_expired_leases-Quiet now d a n s q)

  sent_count-remove_client :
      (agent : Text) (cs : List Client)
      → sent_count d a (remove_client agent cs) ≤ sent_count d a cs
  unfolding sent_count remove_client filter
  sent_count-remove_client agent [] = omega arith
  sent_count-remove_client agent (c ∷ cs) = ground (arith, sent_count-remove_client agent cs)

  sent_count-flush :
      (agent : Text) (cs : List Client) → sent_count d a (flush agent cs) ≤ sent_count d a cs
  unfolding sent_count flush map_where count_where
  sent_count-flush agent [] = omega arith
  sent_count-flush agent (c ∷ cs) = ground (arith, sent_count-flush agent cs)

  -- At most so many commands wait.
  abbrev pub Silent : ℕ → Server → Type 0
  Silent n s = (m : ℕ) × (m ≤ n) × Quiet d a m s

  with_clients :
      (n : ℕ) (cs : List Client) (s : Server)
      → sent_count d a cs ≤ sent_count d a s.clients
      → Quiet d a n s
      → Silent n (record s { clients = cs })
  with_clients n cs s le q = (
    sent_count d a cs,
    omega (arith, q.sent),
    record { settled = q.settled; sent = refl; destructive = q.destructive },
  )

-- What the server relies on in an event: a new job has an id of its own, and no agent reports
-- that a command is pending.
abbrev pub IsHonest : Text → Event → Type 0
IsHonest d (creates now job n) = text_eq job.id d ≡ false
IsHonest d (reports now msg) = is_pending (parse_status msg.status) ≡ false
IsHonest d _ = Unit

connect-Silent :
    (d a : Text) (n now : ℕ) (agent : Text) (s : Server)
    → Quiet d a n s
    → Silent d a n (connect now agent s)
unfolding connect dispatch_pending
connect-Silent d a n now agent s q =
    let (m, le, r) =
      with_clients d a n (record { agent_id = agent; send = [] } ∷ remove_client agent s.clients) s
        (unfold sent_count count_where in
          ground (arith, sent_count-remove_client d a agent s.clients))
        q in
    (m, le, pump_agent-Quiet now d a m agent _ r)

step-Silent :
    (d a : Text) (n : ℕ) (e : Event) (s : Server)
    → IsHonest d e
    → Quiet d a n s
    → Silent d a n (step e s)
unfolding step
step-Silent d a n (creates now job k) s h q =
    let le : n ≤ n = omega arith in
    (
      n,
      le,
      unfold create_job in
          create_resolved-Quiet d a n now _ k (resolve_targets s.agents job.targets) s h q,
    )
step-Silent d a n (reports now msg) s h q =
    let le : n ≤ n = omega arith in (n, le, handle_exec_result-Quiet d a n now msg s h q)
step-Silent d a n (cancels_job id) s h q =
    let le : n ≤ n = omega arith in (n, le, cancelled-Quiet d a n id s q)
step-Silent d a n (ticks now) s h q =
    let le : n ≤ n = omega arith in (n, le, tick-Quiet d a n now s q)
step-Silent d a n (connects now agent) s h q = connect-Silent d a n now agent s q
step-Silent d a n (disconnects agent) s h q =
    with_clients d a n _ s (sent_count-remove_client d a agent s.clients) q
step-Silent d a n (flushes agent) s h q =
    with_clients d a n _ s (sent_count-flush d a agent s.clients) q

run-Silent :
    (d a : Text) (n : ℕ) (es : List Event) (s : Server)
    → All (IsHonest d) es
    → Quiet d a n s
    → Silent d a n (run es s)
unfolding run
run-Silent d a n [] s h q = (n, omega arith, q)
run-Silent d a n (e ∷ es) s h q =
    let (m, le, r) = step-Silent d a n e s h.0 q in
    let (k, le', t) = run-Silent d a m es (step e s) h.1 r in (k, omega arith, t)

-- Once no row of a job that may power a PC off or reboot it waits for an agent, as after it was
-- sent, the server never puts the job in the agent's channel again, through any sequence of
-- creations, results, cancellations, sweeps, disconnections and reconnections: what waits in the
-- channel only gets less, so that after the channel was emptied it is never there, and no row
-- goes back to the queue. New jobs have other ids, and no agent reports that a job is pending.
pub run-destructive :
    (d a : Text) (es : List Event) (s : Server)
    → is_destructive (get_deploy_job_by_id d s.db) ≡ true
    → All (IsSettled d a) s.db.results
    → All (IsHonest d) es
    → (sent_count d a (run es s).clients ≤ sent_count d a s.clients)
      × All (IsSettled d a) (run es s).db.results
run-destructive d a es s known settled honest =
    let (m, le, q) =
      run-Silent d a (sent_count d a s.clients) es s honest
        (record { settled = settled; sent = refl; destructive = known }) in
    (omega (arith, q.sent), q.settled)
