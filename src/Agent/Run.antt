-- ===== src/Agent/Run.antt =====
-- The agent's side as a machine that handles one event at a time.
use librawatch.Common.{ℕ, Text, Option, List, [], ◌∷◌}
use librawatch.Deploy.Report.{Report}
use librawatch.Agent.Queue.{
  IncomingCommand, Agent, submit_command, begin, finish, acknowledge, reconnect, restart,
  start_command_worker,
}

-- What happens to an agent.
pub data Event : Type 0 where
  starts : Event
  submits : ℕ → IncomingCommand → Event
  begins : ℕ → Event
  finishes : ℕ → Option Report → Event
  acknowledges : Text → Event
  reconnects : Event
  restarts : Event

unfoldable pub step : Event → Agent → Agent
step starts a = start_command_worker a
step (submits now cmd) a = (submit_command now cmd a).0
step (begins now) a = begin now a
step (finishes now outcome) a = finish now outcome a
step (acknowledges job) a = acknowledge job a
step reconnects a = reconnect a
step restarts a = restart a

unfoldable pub run : List Event → Agent → Agent
unfolding step
run [] a = a
run (e ∷ es) a = run es (step e a)
