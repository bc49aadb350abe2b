-- ===== src/Agent/Once.antt =====
-- A job has at most one command on its way, and a handler is started only where it must be.
use librawatch.Common.{
  ℕ, ◌≤◌, text_eq, count_where, Option, none, some, List, [], ◌∷◌, length, ◌≡◌, refl, sym, subst,
  ap, arith, Bool-cases, if_rule, inl, inr,
}
use librawatch.Deploy.Report.{Report}
use librawatch.Agent.Completed.{CompletedJob, completed_job_result}
use librawatch.Agent.Queue.{
  IncomingCommand, Agent, queue_size, ws_send, send_durable_result, track_command_done,
  send_expired_result, is_expired, check_expiry, answer_or_run, process_command, take_next,
  begin_if_idle, begin, report_outcome, finish_running, finish, acknowledge, reconnect, restart,
  start_command_worker,
}
use librawatch.Agent.Tracking.{Tracks, without, Tracks-release, Tracks-release_unnamed}
use librawatch.Agent.Submission.{in_flight, IsTracked, same_queue, submit_command-IsTracked}
use librawatch.Agent.Run.{
  Event, starts, submits, begins, finishes, acknowledges, reconnects, restarts, step, run,
}

-- The command that was taken off is done with.
released-IsTracked :
    (cmd : IncomingCommand) (a : Agent)
    → a.running ≡ none
    → length a.channel ≤ queue_size
    → Tracks (cmd ∷ a.channel) a.active
    → IsTracked (track_command_done cmd.job_id a)
unfolding track_command_done
released-IsTracked cmd a idle b t = elim (Bool-cases (text_eq cmd.job_id [])) [
  | inl e ↦ rw e (record {
    tracked =
        subst (λ r. Tracks (in_flight r a.channel) a.active) (sym idle)
          (Tracks-release_unnamed cmd a.channel a.active e t);
    bounded = b;
  })
  | inr named ↦ rw named (record {
    tracked =
        subst (λ r. Tracks (in_flight r a.channel) (without cmd.job_id a.active)) (sym idle)
          (Tracks-release cmd a.channel a.active t);
    bounded = b;
  })
]

check_expiry-IsTracked :
    (now : ℕ) (cmd : IncomingCommand) (a : Agent)
    → a.running ≡ none
    → length a.channel ≤ queue_size
    → Tracks (cmd ∷ a.channel) a.active
    → IsTracked (check_expiry now cmd a)
unfolding check_expiry
check_expiry-IsTracked now cmd a idle b t = elim (Bool-cases (is_expired now cmd.expire_at)) [
  | inl late ↦ rw late (
      released-IsTracked cmd (send_expired_result now cmd a)
        (unfold send_expired_result send_durable_result ws_send in idle)
        (unfold send_expired_result send_durable_result ws_send in b)
        (unfold send_expired_result send_durable_result ws_send in t))
  | inr timely ↦ rw timely (record { tracked = t; bounded = b })
]

answer_or_run-IsTracked :
    (now : ℕ) (cmd : IncomingCommand) (a : Agent) (r : Option Report × List CompletedJob)
    → a.running ≡ none
    → length a.channel ≤ queue_size
    → Tracks (cmd ∷ a.channel) a.active
    → IsTracked (answer_or_run now cmd a r)
unfolding answer_or_run
answer_or_run-IsTracked now cmd a (some r, store) idle b t =
    released-IsTracked cmd _ (unfold ws_send in idle) (unfold ws_send in b) (unfold ws_send in t)
answer_or_run-IsTracked now cmd a (none, store) idle b t = check_expiry-IsTracked now cmd _ idle b t

process_command-IsTracked :
    (now : ℕ) (cmd : IncomingCommand) (a : Agent)
    → a.running ≡ none
    → length a.channel ≤ queue_size
    → Tracks (cmd ∷ a.channel) a.active
    → IsTracked (process_command now cmd a)
unfolding process_command
process_command-IsTracked now cmd a idle b t =
    if_rule IsTracked (text_eq cmd.job_id []) (check_expiry now cmd a)
      (answer_or_run now cmd a (completed_job_result now cmd.job_id a.completed))
      (λ _. check_expiry-IsTracked now cmd a idle b t)
      (λ _. answer_or_run-IsTracked now cmd a _ idle b t)

take_next-IsTracked :
    (now : ℕ) (a : Agent) (cs : List IncomingCommand)
    → a.running ≡ none
    → IsTracked a
    → cs ≡ a.channel
    → IsTracked (take_next now a cs)
unfolding take_next
take_next-IsTracked now a [] idle v e = v
take_next-IsTracked now a (cmd ∷ rest) idle v e =
    process_command-IsTracked now cmd (record a { channel = rest }) idle
      (omega (arith, v.bounded, ap (λ (x : List IncomingCommand). length x) e))
      (subst (λ x. Tracks x a.active) (sym e)
        (subst (λ r. Tracks (in_flight r a.channel) a.active) idle v.tracked))

begin_if_idle-IsTracked :
    (now : ℕ) (a : Agent) (r : Option IncomingCommand)
    → a.running ≡ r
    → IsTracked a
    → IsTracked (begin_if_idle now a r)
unfolding begin_if_idle
begin_if_idle-IsTracked now a none e v = take_next-IsTracked now a a.channel e v refl
begin_if_idle-IsTracked now a (some cmd) e v = v

pub begin-IsTracked : (now : ℕ) (a : Agent) → IsTracked a → IsTracked (begin now a)
unfolding begin
begin-IsTracked now a v = begin_if_idle-IsTracked now a a.running refl v

finish_running-IsTracked :
    (now : ℕ) (outcome : Option Report) (a : Agent) (r : Option IncomingCommand)
    → a.running ≡ r
    → IsTracked a
    → IsTracked (finish_running now outcome a r)
unfolding finish_running
finish_running-IsTracked now outcome a none e v = v
finish_running-IsTracked now none a (some cmd) e v =
    released-IsTracked cmd _ (unfold report_outcome in refl) (unfold report_outcome in v.bounded)
      (unfold report_outcome in subst (λ r. Tracks (in_flight r a.channel) a.active) e v.tracked)
finish_running-IsTracked now (some r) a (some cmd) e v =
    released-IsTracked cmd _ (unfold report_outcome send_durable_result ws_send in refl)
      (unfold report_outcome send_durable_result ws_send in v.bounded)
      (unfold report_outcome send_durable_result ws_send in
        subst (λ x. Tracks (in_flight x a.channel) a.active) e v.tracked)

pub finish-IsTracked :
    (now : ℕ) (outcome : Option Report) (a : Agent) → IsTracked a → IsTracked (finish now outcome a)
unfolding finish
finish-IsTracked now outcome a v = finish_running-IsTracked now outcome a a.running refl v

step-IsTracked : (e : Event) (a : Agent) → IsTracked a → IsTracked (step e a)
unfolding step
step-IsTracked starts a v =
    same_queue a _ (unfold start_command_worker in refl) (unfold start_command_worker in refl)
      (unfold start_command_worker in refl) v
step-IsTracked (submits now cmd) a v = submit_command-IsTracked now cmd a v
step-IsTracked (begins now) a v = begin-IsTracked now a v
step-IsTracked (finishes now outcome) a v = finish-IsTracked now outcome a v
step-IsTracked (acknowledges job) a v =
    same_queue a _ (unfold acknowledge in refl) (unfold acknowledge in refl)
      (unfold acknowledge in refl) v
step-IsTracked reconnects a v =
    same_queue a _ (unfold reconnect in refl) (unfold reconnect in refl) (unfold reconnect in refl)
      v
step-IsTracked restarts a v =
    unfold restart count_where in
    record { tracked = λ j named. (refl, omega arith); bounded = omega arith }

-- Through any sequence of deliveries, runs, acknowledgements, reconnections and restarts a named
-- job has at most one command queued or running, it is marked active exactly then, and the queue
-- never holds more than sixteen commands.
pub run-IsTracked : (es : List Event) (a : Agent) → IsTracked a → IsTracked (run es a)
unfolding run
run-IsTracked [] a v = v
run-IsTracked (e ∷ es) a v = run-IsTracked es (step e a) (step-IsTracked e a v)
