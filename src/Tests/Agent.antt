-- ===== src/Tests/Agent.antt =====
-- The theorems on the agent's command queue at concrete inputs.
use librawatch.Common.{
  codes, text_eq, true, false, any, count_where, none, some, List, [], ◌∷◌, ◌≡◌, refl, arith,
}
use librawatch.Common.Int.{pos}
use librawatch.Deploy.Report.{Report}
use librawatch.Agent.Completed.{CompletedJob, record_completed_result, completed_job_result}
use librawatch.Agent.Retention.{StoreUse, stores, asks, use_store, completed_job_result-record}
use librawatch.Agent.Queue.{IncomingCommand, Agent, is_serial, submit_command, begin, finish}
use librawatch.Agent.Run.{Event, submits, begins, finishes, run}
use librawatch.Agent.Submission.{IsTracked}
use librawatch.Agent.Once.{run-IsTracked}
use librawatch.Agent.Drain.{Turn, take_turns, take_turns_drains}
use librawatch.Agent.Redelivery.{Answers, Started, submit_command-finish, begin-Started}

abbrev command : IncomingCommand
command = record {
  type = codes "exec";
  job_id = codes "j1";
  expire_at = none;
  attempt = some (pos 0);
}

abbrev success : Report
success = record {
  job_id = codes "j1";
  agent_id = codes "pc-1";
  attempt = some (pos 0);
  status = codes "success";
  output = [];
  exit_code = some (pos 0);
  duration_ms = some (pos 12);
}

abbrev fresh : Agent
fresh = record {
  agent_id = codes "pc-1";
  started = true;
  channel = [];
  active = [];
  running = none;
  completed = [];
  pending = [];
  sent = [];
  executed = [];
}

fresh-IsTracked : IsTracked fresh
unfolding count_where
fresh-IsTracked = record { tracked = λ j named. (refl, omega arith); bounded = omega arith }

abbrev twice : List Event
twice =
    submits 1 command
    ∷ begins 2
    ∷ submits 3 command
    ∷ finishes 4 (some success)
    ∷ submits 5 command
    ∷ []

run-IsTracked_example : IsTracked (run twice fresh)
run-IsTracked_example = run-IsTracked twice fresh fresh-IsTracked

abbrev busy : Agent
busy = record fresh { running = some command; active = codes "j1" ∷ []; executed = command ∷ [] }

abbrev other_result : Report
other_result = record success { job_id = codes "j2" }

-- Another job finishes, and both are looked up.
abbrev uses : List StoreUse
uses = asks 110 (codes "j1") ∷ stores 120 (codes "j2") other_result ∷ asks 130 (codes "j2") ∷ []

abbrev other_done : Agent
other_done = record fresh { completed = use_store uses (finish 100 (some success) busy).completed }

resend_example : Answers success other_done (submit_command 200 command other_done).0
unfolding text_eq is_serial
resend_example =
    submit_command-finish 100 200 command command success busy other_done uses refl refl tt
      (omega arith, ((omega arith, omega arith, refl), (omega arith, tt))) (omega arith) refl refl
      (omega arith) refl refl

begin_example :
    Started 7
      (record fresh { channel = command ∷ [] })
      (begin 7 (record fresh { channel = command ∷ [] })).executed
begin_example = begin-Started 7 (record fresh { channel = command ∷ [] })

abbrev older : CompletedJob
older = record { job_id = codes "j0"; result = success; at = 50 }

stored_example :
    (completed_job_result 200
      (codes "j1")
      (use_store uses (record_completed_result 100 (codes "j1") success (older ∷ [])))).0
    ≡ some success
unfolding text_eq
stored_example =
    completed_job_result-record 100 200 (codes "j1") success (older ∷ []) uses refl
      (omega arith, tt) (omega arith, ((omega arith, omega arith, refl), (omega arith, tt)))
      (omega arith) (omega arith)

abbrev waiting : Agent
waiting = record fresh { channel = command ∷ []; active = codes "j1" ∷ [] }

waiting-IsTracked : IsTracked waiting
unfolding count_where
waiting-IsTracked = record { tracked = λ j named. (refl, ground arith); bounded = omega arith }

abbrev turns : List Turn
turns = record { began = 10; ended = 12; outcome = some success } ∷ []

take_turns_drains_example :
    ((take_turns turns waiting).running ≡ none)
    × ((take_turns turns waiting).channel ≡ [])
    × (any (λ k. text_eq k (codes "j1")) (take_turns turns waiting).active ≡ false)
unfolding text_eq
take_turns_drains_example =
    take_turns_drains turns waiting (codes "j1") waiting-IsTracked refl (omega arith) refl
