-- ===== src/Agent/Redelivery.antt =====
-- A command that is delivered again, and when a handler is started at all.
use mathlib.Core.Option.{some-injective}
use librawatch.Common.{
  All, ℕ, ◌-◌, ◌<◌, Text, text_eq, Bool, true, false, if_rule, Option, none, some, List, [], ◌∷◌,
  ◌++◌, ◌≡◌, refl, sym, subst, ap, ◌∙◌, ◌⊎◌, inl, inr,
}
use librawatch.Deploy.Report.{Report}
use librawatch.Agent.Completed.{CompletedJob, record_completed_result, completed_job_result}
use librawatch.Agent.Entries.{NoneAfter}
use librawatch.Agent.Retention.{
  StoreUse, use_store, stored_count, Spares, completed_job_result-record,
}
use librawatch.Agent.Queue.{
  IncomingCommand, Agent, ws_send, send_durable_result, track_command_done, answer_or_claim,
  submit_started, submit_command, is_serial, send_expired_result, is_expired, check_expiry,
  answer_or_run, process_command, take_next, begin_if_idle, begin, report_outcome, finish_running,
  finish,
}

-- The message is sent, and the queue and the handlers are left alone.
abbrev pub Answers : Report → Agent → Agent → Type 0
Answers r a b = (b.sent ≡ a.sent ++ r ∷ []) × (b.channel ≡ a.channel) × (b.executed ≡ a.executed)

answer_or_claim-Answers :
    (cmd : IncomingCommand) (a : Agent) (r : Report) (res : Option Report × List CompletedJob)
    → res.0 ≡ some r
    → Answers r a (answer_or_claim cmd a res)
unfolding answer_or_claim ws_send
answer_or_claim-Answers cmd a r (none, store) e = cc
answer_or_claim-Answers cmd a r (some x, store) e =
    (ap (λ y. a.sent ++ y ∷ []) (some-injective x r e), refl, refl)

-- The duplicate of a command whose result is stored is answered with that result.
pub submit_command-stored :
    (now : ℕ) (cmd : IncomingCommand) (a : Agent) (r : Report)
    → is_serial cmd.type ≡ true
    → a.started ≡ true
    → text_eq cmd.job_id [] ≡ false
    → (completed_job_result now cmd.job_id a.completed).0 ≡ some r
    → Answers r a (submit_command now cmd a).0
unfolding submit_command submit_started
submit_command-stored now cmd a r serial up named stored =
    if_rule (λ (x : Agent × Bool). Answers r a x.0) (is_serial cmd.type) _ (a, false)
      (λ _.
        if_rule (λ (x : Agent × Bool). Answers r a x.0) a.started (submit_started now cmd a, true)
          (a, true)
          (λ _.
            if_rule (Answers r a) (text_eq cmd.job_id []) _
              (answer_or_claim cmd a (completed_job_result now cmd.job_id a.completed))
              (λ unnamed. cc) (λ _. answer_or_claim-Answers cmd a r _ stored))
          (λ down. cc))
      (λ other. cc)

completed-finish :
    (now : ℕ) (r : Report) (a : Agent) (cmd : IncomingCommand) (x : Option IncomingCommand)
    → x ≡ some cmd
    → (finish_running now (some r) a x).completed
      ≡ record_completed_result now cmd.job_id r a.completed
unfolding finish_running
completed-finish now r a cmd none e = cc
completed-finish now r a cmd (some c) e =
    kept c _
    ∙ unfold report_outcome send_durable_result ws_send in
      ap (λ (y : IncomingCommand). record_completed_result now y.job_id r a.completed)
        (some-injective c cmd e)
  where
    kept :
        (y : IncomingCommand) (b : Agent) → (track_command_done y.job_id b).completed ≡ b.completed
    kept y b =
        unfold track_command_done in
        if_rule (λ (z : Agent). z.completed ≡ b.completed) (text_eq y.job_id []) b _ (λ _. refl)
          (λ _. refl)

-- When the handler of a job with an id has reported a result, and no stored result is of a later
-- time, each delivery of that job as a queued command in the next 24 hours, to an agent whose queue
-- has started, is answered with that result, and the command is not queued or run again: whatever
-- was looked up in the store meanwhile, and whichever results were stored for other jobs, when those
-- are fewer than 256.
pub submit_command-finish :
    (now later : ℕ) (cmd again : IncomingCommand) (r : Report) (a b : Agent) (es : List StoreUse)
    → a.running ≡ some cmd
    → text_eq cmd.job_id [] ≡ false
    → NoneAfter now a.completed
    → All (Spares now cmd.job_id) es
    → stored_count es < 256
    → b.started ≡ true
    → b.completed ≡ use_store es (finish now (some r) a).completed
    → later - now < 86400
    → is_serial again.type ≡ true
    → again.job_id ≡ cmd.job_id
    → Answers r b (submit_command later again b).0
submit_command-finish now later cmd again r a b es running named old spares few up store fresh
      serial same =
    let stored : (finish now (some r) a).completed
        ≡ record_completed_result now cmd.job_id r a.completed =
      unfold finish in completed-finish now r a cmd a.running running in
    submit_command-stored later again b r serial up
      (subst (λ j. text_eq j [] ≡ false) (sym same) named)
      (ap (λ j. (completed_job_result later j b.completed).0) same
        ∙ ap (λ x. (completed_job_result later cmd.job_id x).0) (store ∙ ap (use_store es) stored)
        ∙ completed_job_result-record now later cmd.job_id r a.completed es named old spares few
            fresh)

-- The conditions under which a handler is started.
pub record Runs (now : ℕ) (a : Agent) (cmd : IncomingCommand) : Type 0 where
  pub idle : a.running ≡ none
  pub next : (rest : List IncomingCommand) × (a.channel ≡ cmd ∷ rest)
  pub timely : is_expired now cmd.expire_at ≡ false
  pub new :
      text_eq cmd.job_id [] ≡ false → (completed_job_result now cmd.job_id a.completed).0 ≡ none

abbrev pub Started : ℕ → Agent → List IncomingCommand → Type 0
Started now a executed =
    (executed ≡ a.executed)
    ⊎ ((cmd : IncomingCommand) × (executed ≡ a.executed ++ cmd ∷ []) × Runs now a cmd)

executed-done : (job : Text) (b : Agent) → (track_command_done job b).executed ≡ b.executed
unfolding track_command_done
executed-done job b =
    if_rule (λ (z : Agent). z.executed ≡ b.executed) (text_eq job []) b _ (λ _. refl) (λ _. refl)

check_expiry-Started :
    (now : ℕ) (cmd : IncomingCommand) (rest : List IncomingCommand) (a b : Agent)
    → b.executed ≡ a.executed
    → a.running ≡ none
    → a.channel ≡ cmd ∷ rest
    → (text_eq cmd.job_id [] ≡ false → (completed_job_result now cmd.job_id a.completed).0 ≡ none)
    → Started now a (check_expiry now cmd b).executed
unfolding check_expiry
check_expiry-Started now cmd rest a b same idle next new =
    if_rule (λ (x : Agent). Started now a x.executed) (is_expired now cmd.expire_at) _ _
      (λ late. inl (
        executed-done cmd.job_id _
        ∙ unfold send_expired_result send_durable_result ws_send in same))
      (λ timely. inr (
        cmd,
        ap (λ x. x ++ cmd ∷ []) same,
        record { idle = idle; next = (rest, next); timely = timely; new = new },
      ))

answer_or_run-Started :
    (now : ℕ) (cmd : IncomingCommand) (rest : List IncomingCommand) (a b : Agent)
    (res : Option Report × List CompletedJob)
    → completed_job_result now cmd.job_id a.completed ≡ res
    → b.executed ≡ a.executed
    → a.running ≡ none
    → a.channel ≡ cmd ∷ rest
    → Started now a (answer_or_run now cmd b res).executed
unfolding answer_or_run
answer_or_run-Started now cmd rest a b (some r, store) e same idle next =
    inl (executed-done cmd.job_id _ ∙ unfold ws_send in same)
answer_or_run-Started now cmd rest a b (none, store) e same idle next =
    check_expiry-Started now cmd rest a _ same idle next
      (λ _. ap (λ (x : Option Report × List CompletedJob). x.0) e)

take_next-Started :
    (now : ℕ) (a : Agent) (cs : List IncomingCommand)
    → a.running ≡ none
    → a.channel ≡ cs
    → Started now a (take_next now a cs).executed
unfolding take_next process_command
take_next-Started now a [] idle e = inl refl
take_next-Started now a (cmd ∷ rest) idle e =
    if_rule (λ (x : Agent). Started now a x.executed) (text_eq cmd.job_id []) _ _
      (λ unnamed.
        check_expiry-Started now cmd rest a (record a { channel = rest }) refl idle e (λ named. cc))
      (λ named.
        answer_or_run-Started now cmd rest a (record a { channel = rest }) _ refl refl idle e)

begin_if_idle-Started :
    (now : ℕ) (a : Agent) (r : Option IncomingCommand)
    → a.running ≡ r
    → Started now a (begin_if_idle now a r).executed
unfolding begin_if_idle
begin_if_idle-Started now a none e = take_next-Started now a a.channel e refl
begin_if_idle-Started now a (some c) e = inl refl

-- The worker starts at most one handler at a time: that of the first queued command, when no
-- other is running, the command has not expired and no result of its job is stored.
pub begin-Started : (now : ℕ) (a : Agent) → Started now a (begin now a).executed
unfolding begin
begin-Started now a = begin_if_idle-Started now a a.running refl
