-- ===== src/Agent/Drain.antt =====
-- The worker gets to the end of its queue.
use librawatch.Common.{
  ℕ, ◌+◌, ◌≤◌, Text, text_eq, count_where, length, any, if_rule, false, Option, none, some, List,
  [], ◌∷◌, ◌≡◌, refl, sym, ◌∙◌, subst, arith,
}
use librawatch.Deploy.Report.{Report}
use librawatch.Agent.Completed.{CompletedJob, completed_job_result}
use librawatch.Agent.Queue.{
  IncomingCommand, Agent, ws_send, send_durable_result, track_command_done, send_expired_result,
  is_expired, check_expiry, answer_or_run, process_command, take_next, begin_if_idle, begin,
  report_outcome, finish_running, finish,
}
use librawatch.Agent.Tracking.{claims_of, Tracks}
use librawatch.Agent.Submission.{in_flight, IsTracked}
use librawatch.Agent.Once.{begin-IsTracked, finish-IsTracked}

-- One turn of the worker's loop: when it takes a command, when the handler returns, and with what.
pub record Turn : Type 0 where
  pub began : ℕ
  pub ended : ℕ
  pub outcome : Option Report

unfoldable pub take_turns : List Turn → Agent → Agent
take_turns [] a = a
take_turns (t ∷ ts) a = take_turns ts (finish t.ended t.outcome (begin t.began a))

abbrev tail : List IncomingCommand → List IncomingCommand
tail [] = []
tail (c ∷ cs) = cs

track_command_done_queue :
    (job : Text) (a : Agent)
    → ((track_command_done job a).channel ≡ a.channel)
      × ((track_command_done job a).running ≡ a.running)
unfolding track_command_done
track_command_done_queue job a = ground arith

finish-idle :
    (now : ℕ) (o : Option Report) (a : Agent) (r : Option IncomingCommand)
    → a.running ≡ r
    → ((finish_running now o a r).running ≡ none) × ((finish_running now o a r).channel ≡ a.channel)
unfolding finish_running report_outcome send_durable_result ws_send
finish-idle now o a none e = (e, refl)
finish-idle now none a (some cmd) e =
    ground (arith, track_command_done_queue cmd.job_id (record a { running = none }))
finish-idle now (some r) a (some cmd) e =
    let done =
      track_command_done_queue cmd.job_id
        (send_durable_result now cmd.job_id r (record a { running = none })) in
    (done.1, done.0)

check_expiry-channel :
    (now : ℕ) (cmd : IncomingCommand) (a : Agent) → (check_expiry now cmd a).channel ≡ a.channel
unfolding check_expiry send_expired_result send_durable_result ws_send
check_expiry-channel now cmd a =
    if_rule (λ (b : Agent). b.channel ≡ a.channel) (is_expired now cmd.expire_at) _ _
      (λ _. (track_command_done_queue cmd.job_id (send_expired_result now cmd a)).0) (λ _. refl)

answer_or_run-channel :
    (now : ℕ) (cmd : IncomingCommand) (a : Agent) (r : Option Report × List CompletedJob)
    → (answer_or_run now cmd a r).channel ≡ a.channel
unfolding answer_or_run ws_send
answer_or_run-channel now cmd a (some r, store) =
    (track_command_done_queue cmd.job_id (ws_send r (record a { completed = store }))).0
answer_or_run-channel now cmd a (none, store) =
    check_expiry-channel now cmd (record a { completed = store })

process_command-channel :
    (now : ℕ) (cmd : IncomingCommand) (a : Agent) → (process_command now cmd a).channel ≡ a.channel
unfolding process_command
process_command-channel now cmd a =
    if_rule (λ (b : Agent). b.channel ≡ a.channel) (text_eq cmd.job_id []) _ _
      (λ _. check_expiry-channel now cmd a)
      (λ _. answer_or_run-channel now cmd a (completed_job_result now cmd.job_id a.completed))

take_next-channel :
    (now : ℕ) (a : Agent) (cs : List IncomingCommand)
    → a.channel ≡ cs
    → (take_next now a cs).channel ≡ tail cs
unfolding take_next
take_next-channel now a [] e = e
take_next-channel now a (cmd ∷ rest) e =
    process_command-channel now cmd (record a { channel = rest })

begin_if_idle-channel :
    (now : ℕ) (a : Agent) (r : Option IncomingCommand)
    → r ≡ none
    → (begin_if_idle now a r).channel ≡ tail a.channel
unfolding begin_if_idle
begin_if_idle-channel now a none e = take_next-channel now a a.channel refl
begin_if_idle-channel now a (some cmd) e = cc

begin-channel : (now : ℕ) (a : Agent) → a.running ≡ none → (begin now a).channel ≡ tail a.channel
unfolding begin
begin-channel now a idle = begin_if_idle-channel now a a.running idle

turn-idle :
    (t : Turn) (a : Agent)
    → a.running ≡ none
    → let b = finish t.ended t.outcome (begin t.began a) in
      (b.running ≡ none) × (b.channel ≡ tail a.channel)
unfolding finish
turn-idle t a idle =
    let done = finish-idle t.ended t.outcome (begin t.began a) (begin t.began a).running refl in
    (done.0, done.1 ∙ begin-channel t.began a idle)

length-tail : (cs : List IncomingCommand) (n : ℕ) → length cs ≤ n + 1 → length (tail cs) ≤ n
length-tail [] n h = omega arith
length-tail (c ∷ cs) n h = omega arith

take_turns-queue :
    (ts : List Turn) (a : Agent)
    → IsTracked a
    → a.running ≡ none
    → length a.channel ≤ length ts
    → let b = take_turns ts a in IsTracked b × (b.running ≡ none) × (b.channel ≡ [])
unfolding take_turns
take_turns-queue [] a v idle h = (v, idle, no_commands a.channel h)
  where
    no_commands : (cs : List IncomingCommand) → length cs ≤ 0 → cs ≡ []
    no_commands [] k = refl
    no_commands (c ∷ cs) k = absurd (omega arith)
take_turns-queue (t ∷ ts) a v idle h =
    let (rests, channel) = turn-idle t a idle in
    take_turns-queue ts (finish t.ended t.outcome (begin t.began a))
      (finish-IsTracked t.ended t.outcome (begin t.began a) (begin-IsTracked t.began a v)) rests
      (subst (λ cs. length cs ≤ length ts) (sym channel)
        (length-tail a.channel (length ts) (omega arith)))

none_active :
    (j : Text) (active : List Text) → claims_of j active ≡ 0 → any (λ k. text_eq k j) active ≡ false
unfolding count_where any
none_active j [] h = refl
none_active j (k ∷ active) h = ground (arith, none_active j active)

-- A worker that is idle, with consistent marks and whose handlers return, empties its queue in as many turns as
-- commands wait, whatever the handlers report and whatever has expired: then nothing runs or
-- waits, and no named job is marked active.
pub take_turns_drains :
    (ts : List Turn) (a : Agent) (job : Text)
    → IsTracked a
    → a.running ≡ none
    → length a.channel ≤ length ts
    → text_eq job [] ≡ false
    → let b = take_turns ts a in
      (b.running ≡ none) × (b.channel ≡ []) × (any (λ k. text_eq k job) b.active ≡ false)
take_turns_drains ts a job v idle h named =
    let (w, rests, empty) = take_turns-queue ts a v idle h in
    (rests, empty, none_active job (take_turns ts a).active (left rests empty w))
  where
    left :
        (take_turns ts a).running ≡ none
        → (take_turns ts a).channel ≡ []
        → IsTracked (take_turns ts a)
        → claims_of job (take_turns ts a).active ≡ 0
    left rests empty w =
        let tracked =
          subst (λ r. Tracks (in_flight r (take_turns ts a).channel) (take_turns ts a).active) rests
            w.tracked in
        let none_left = subst (λ cs. Tracks cs (take_turns ts a).active) empty tracked in
        unfold count_where in sym (none_left job named).0
