-- ===== src/Agent/Submission.antt =====
-- A command that is submitted keeps the queue in order.
use librawatch.Common.{
  ℕ, ◌≤◌, text_eq, Bool, true, false, Option, none, some, List, [], ◌∷◌, ◌++◌, length,
  length-append, any, ltb, ltb→lt, ◌≡◌, refl, sym, subst, ap, arith, Bool-cases, if_rule, inl, inr,
}
use librawatch.Deploy.Report.{Report}
use librawatch.Agent.Completed.{CompletedJob, completed_job_result}
use librawatch.Agent.Queue.{
  IncomingCommand, Agent, queue_size, ws_send, track_command_done, enqueue, claim_command,
  answer_or_claim, submit_started, submit_command, is_serial,
}
use librawatch.Agent.Tracking.{Tracks, Tracks-claim, Tracks-claim_unnamed, Tracks-unclaim}

-- The command that a handler works on, and those that wait.
abbrev pub in_flight : Option IncomingCommand → List IncomingCommand → List IncomingCommand
in_flight none cs = cs
in_flight (some cmd) cs = cmd ∷ cs

in_flight-append :
    (r : Option IncomingCommand) (cs : List IncomingCommand) (cmd : IncomingCommand)
    → in_flight r cs ++ cmd ∷ [] ≡ in_flight r (cs ++ cmd ∷ [])
in_flight-append none cs cmd = refl
in_flight-append (some c) cs cmd = refl

pub record IsTracked (a : Agent) : Type 0 where
  pub tracked : Tracks (in_flight a.running a.channel) a.active
  pub bounded : length a.channel ≤ queue_size

-- The invariant is about the queue, the running command and the set of active jobs.
pub same_queue :
    (a b : Agent)
    → b.running ≡ a.running
    → b.channel ≡ a.channel
    → b.active ≡ a.active
    → IsTracked a
    → IsTracked b
same_queue a b p q r v = record {
  tracked =
      subst (λ x. Tracks x b.active) (ap (λ x. in_flight x b.channel) (sym p))
        (subst (λ x. Tracks (in_flight a.running x) b.active) (sym q)
          (subst (Tracks (in_flight a.running a.channel)) (sym r) v.tracked));
  bounded = subst (λ x. length x ≤ queue_size) (sym q) v.bounded;
}

queue_append :
    (a : Agent) (cmd : IncomingCommand)
    → ltb (length a.channel) queue_size ≡ true
    → Tracks (in_flight a.running a.channel ++ cmd ∷ []) a.active
    → IsTracked (record a { channel = a.channel ++ cmd ∷ [] })
queue_append a cmd room t = record {
  tracked = subst (λ x. Tracks x a.active) (in_flight-append a.running a.channel cmd) t;
  bounded = omega (arith, length-append a.channel (cmd ∷ []), ltb→lt _ _ room);
}

claim_command-IsTracked :
    (cmd : IncomingCommand) (a : Agent)
    → text_eq cmd.job_id [] ≡ false
    → IsTracked a
    → IsTracked (claim_command cmd a)
unfolding claim_command enqueue
claim_command-IsTracked cmd a named v =
    elim (Bool-cases (any (λ j. text_eq j cmd.job_id) a.active)) [
      | inl busy ↦ rw busy v
      | inr free ↦ elim (Bool-cases (ltb (length a.channel) queue_size)) [
        | inl room ↦
            rw (free, room)
              (queue_append (record a { active = cmd.job_id ∷ a.active }) cmd room
                (Tracks-claim cmd (in_flight a.running a.channel) a.active free v.tracked))
        | inr full ↦
            rw (free, full)
              (unfold track_command_done in
                rw named (record {
                  tracked =
                      Tracks-unclaim cmd (in_flight a.running a.channel) a.active free v.tracked;
                  bounded = v.bounded;
                }))
      ]
    ]

enqueue_unnamed-IsTracked :
    (cmd : IncomingCommand) (a : Agent)
    → text_eq cmd.job_id [] ≡ true
    → IsTracked a
    → IsTracked (enqueue cmd a)
unfolding enqueue
enqueue_unnamed-IsTracked cmd a e v = elim (Bool-cases (ltb (length a.channel) queue_size)) [
  | inl room ↦ rw room (
      queue_append a cmd room
        (Tracks-claim_unnamed cmd (in_flight a.running a.channel) a.active e v.tracked))
  | inr full ↦ rw full (unfold track_command_done in rw e v)
]

answer_or_claim-IsTracked :
    (cmd : IncomingCommand) (a : Agent) (r : Option Report × List CompletedJob)
    → text_eq cmd.job_id [] ≡ false
    → IsTracked a
    → IsTracked (answer_or_claim cmd a r)
unfolding answer_or_claim
answer_or_claim-IsTracked cmd a (some r, store) named v =
    same_queue a _ (unfold ws_send in refl) (unfold ws_send in refl) (unfold ws_send in refl) v
answer_or_claim-IsTracked cmd a (none, store) named v =
    claim_command-IsTracked cmd _ named
      (same_queue a (record a { completed = store }) refl refl refl v)

submit_started-IsTracked :
    (now : ℕ) (cmd : IncomingCommand) (a : Agent)
    → IsTracked a
    → IsTracked (submit_started now cmd a)
unfolding submit_started
submit_started-IsTracked now cmd a v =
    if_rule IsTracked (text_eq cmd.job_id []) (enqueue cmd a)
      (answer_or_claim cmd a (completed_job_result now cmd.job_id a.completed))
      (λ e. enqueue_unnamed-IsTracked cmd a e v)
      (λ named. answer_or_claim-IsTracked cmd a _ named v)

pub submit_command-IsTracked :
    (now : ℕ) (cmd : IncomingCommand) (a : Agent)
    → IsTracked a
    → IsTracked (submit_command now cmd a).0
unfolding submit_command
submit_command-IsTracked now cmd a v =
    if_rule (λ (r : Agent × Bool). IsTracked r.0) (is_serial cmd.type) _ (a, false)
      (λ _.
        if_rule (λ (r : Agent × Bool). IsTracked r.0) a.started (submit_started now cmd a, true)
          (a, true) (λ _. submit_started-IsTracked now cmd a v) (λ _. v))
      (λ _. v)
