-- ===== src/Agent/Queue.antt =====
-- The serial command worker, agent/cmdqueue.go. A handler runs between `begin`, which takes a
-- command off the queue, and `finish`, which is given what the handler reports.
use librawatch.Common.{
  ℕ, Text, codes, text_eq, length, filter, any, ltb, if◌then◌else◌, Bool, true, false, not, Option,
  none, some, List, [], ◌∷◌, ◌++◌,
}
use librawatch.Common.Int.{ℤ, pos, negsuc}
use librawatch.Deploy.Report.{Report}
use librawatch.Agent.Completed.{CompletedJob, record_completed_result, completed_job_result}
use librawatch.Agent.Acks.{
  PendingResult, persist_pending_result, clear_pending_result, replay_pending_results,
}

-- A command message; `expire_at` is what parseExpireAt makes of it.
pub record IncomingCommand : Type 0 where
  pub type : Text
  pub job_id : Text
  pub expire_at : Option ℕ
  pub attempt : Option ℤ

-- `sent` are the messages given to wsSend, `executed` the commands given to their handlers.
pub record Agent : Type 0 where
  pub agent_id : Text
  pub started : Bool
  pub channel : List IncomingCommand
  pub active : List Text
  pub running : Option IncomingCommand
  pub completed : List CompletedJob
  pub pending : List PendingResult
  pub sent : List Report
  pub executed : List IncomingCommand

abbrev pub serial_command_types : List Text
serial_command_types =
    codes "exec"
    ∷ codes "winget"
    ∷ codes "file_deploy"
    ∷ codes "deepfreeze"
    ∷ codes "network_mode"
    ∷ codes "msiexec_uninstall"
    ∷ codes "quiet_uninstall"
    ∷ codes "install_ssh"
    ∷ []

unfoldable pub is_serial : Text → Bool
unfolding any text_eq
is_serial type = any (λ t. text_eq t type) serial_command_types

-- make(chan incomingCommand, 16)
abbrev pub queue_size : ℕ
queue_size = 16

unfoldable pub start_command_worker : Agent → Agent
start_command_worker a = record a { started = true }

unfoldable pub ws_send : Report → Agent → Agent
ws_send r a = record a { sent = a.sent ++ r ∷ [] }

unfoldable pub send_durable_result : ℕ → Text → Report → Agent → Agent
unfolding ws_send
send_durable_result now job r a = ws_send r (record a {
  pending = persist_pending_result now job r a.pending;
  completed = record_completed_result now job r a.completed;
})

unfoldable pub track_command_done : Text → Agent → Agent
track_command_done job a =
    if text_eq job [] then a else record a { active = filter (λ j. not (text_eq j job)) a.active }

unfoldable pub enqueue : IncomingCommand → Agent → Agent
unfolding track_command_done
enqueue cmd a =
    if ltb (length a.channel) queue_size
    then record a { channel = a.channel ++ cmd ∷ [] }
    else track_command_done cmd.job_id a

-- A command whose result is not stored: it is claimed, unless it is on its way already.
unfoldable pub claim_command : IncomingCommand → Agent → Agent
unfolding enqueue
claim_command cmd a =
    if any (λ j. text_eq j cmd.job_id) a.active
    then a
    else enqueue cmd (record a { active = cmd.job_id ∷ a.active })

unfoldable pub answer_or_claim : IncomingCommand → Agent → Option Report × List CompletedJob → Agent
unfolding claim_command ws_send
answer_or_claim cmd a (some r, store) = ws_send r (record a { completed = store })
answer_or_claim cmd a (none, store) = claim_command cmd (record a { completed = store })

unfoldable pub submit_started : ℕ → IncomingCommand → Agent → Agent
unfolding answer_or_claim
submit_started now cmd a =
    if text_eq cmd.job_id []
    then enqueue cmd a
    else answer_or_claim cmd a (completed_job_result now cmd.job_id a.completed)

-- False for a type that is not serial, which the caller runs by itself.
unfoldable pub submit_command : ℕ → IncomingCommand → Agent → Agent × Bool
unfolding is_serial submit_started
submit_command now cmd a =
    if is_serial cmd.type
    then (if a.started then (submit_started now cmd a, true) else (a, true))
    else (a, false)

unfoldable pub expired_result : Text → IncomingCommand → Report
expired_result agent cmd = record {
  job_id = cmd.job_id;
  agent_id = agent;
  attempt = cmd.attempt;
  status = codes "expired";
  output = codes "command expired before execution on agent";
  exit_code = some (negsuc 0);
  duration_ms = some (pos 0);
}

unfoldable pub send_expired_result : ℕ → IncomingCommand → Agent → Agent
unfolding expired_result send_durable_result
send_expired_result now cmd a = send_durable_result now cmd.job_id (expired_result a.agent_id cmd) a

unfoldable pub is_expired : ℕ → Option ℕ → Bool
is_expired now none = false
is_expired now (some t) = ltb t now

-- processCommand up to the handler's call.
unfoldable pub check_expiry : ℕ → IncomingCommand → Agent → Agent
unfolding is_expired send_expired_result track_command_done
check_expiry now cmd a =
    if is_expired now cmd.expire_at
    then track_command_done cmd.job_id (send_expired_result now cmd a)
    else record a { running = some cmd; executed = a.executed ++ cmd ∷ [] }

unfoldable pub answer_or_run :
    ℕ → IncomingCommand → Agent → Option Report × List CompletedJob → Agent
unfolding check_expiry ws_send track_command_done
answer_or_run now cmd a (some r, store) =
    track_command_done cmd.job_id (ws_send r (record a { completed = store }))
answer_or_run now cmd a (none, store) = check_expiry now cmd (record a { completed = store })

unfoldable pub process_command : ℕ → IncomingCommand → Agent → Agent
unfolding answer_or_run
process_command now cmd a =
    if text_eq cmd.job_id []
    then check_expiry now cmd a
    else answer_or_run now cmd a (completed_job_result now cmd.job_id a.completed)

unfoldable pub take_next : ℕ → Agent → List IncomingCommand → Agent
unfolding process_command
take_next now a [] = a
take_next now a (cmd ∷ rest) = process_command now cmd (record a { channel = rest })

unfoldable pub begin_if_idle : ℕ → Agent → Option IncomingCommand → Agent
unfolding take_next
begin_if_idle now a none = take_next now a a.channel
begin_if_idle now a (some cmd) = a

-- The worker's loop, when no handler is running.
unfoldable pub begin : ℕ → Agent → Agent
unfolding begin_if_idle
begin now a = begin_if_idle now a a.running

unfoldable pub report_outcome : ℕ → IncomingCommand → Option Report → Agent → Agent
unfolding send_durable_result
report_outcome now cmd none a = a
report_outcome now cmd (some r) a = send_durable_result now cmd.job_id r a

unfoldable pub finish_running : ℕ → Option Report → Agent → Option IncomingCommand → Agent
unfolding report_outcome track_command_done
finish_running now outcome a none = a
finish_running now outcome a (some cmd) =
    track_command_done cmd.job_id (report_outcome now cmd outcome (record a { running = none }))

-- The handler returns, and the deferred call releases the job.
unfoldable pub finish : ℕ → Option Report → Agent → Agent
unfolding finish_running
finish now outcome a = finish_running now outcome a a.running

-- exec_result_ack
unfoldable pub acknowledge : Text → Agent → Agent
unfolding clear_pending_result
acknowledge job a = record a { pending = clear_pending_result job a.pending }

-- runSession replays what is not confirmed.
unfoldable pub reconnect : Agent → Agent
unfolding replay_pending_results
reconnect a = record a { sent = a.sent ++ replay_pending_results a.pending }

-- A new process has the two stores, and neither the queue nor the set of active jobs.
unfoldable pub restart : Agent → Agent
restart a = record a { started = false; channel = []; active = []; running = none }
