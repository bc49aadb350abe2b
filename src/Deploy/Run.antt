-- ===== src/Deploy/Run.antt =====
-- The command queue as a machine that handles one event at a time.
use librawatch.Common.{ℕ, Text, text_eq, not, List, [], ◌∷◌, filter, map_where}
use librawatch.Common.Int.{ℤ}
use librawatch.Deploy.Model.{Job}
use librawatch.Deploy.Store.{cancel_deploy_job}
use librawatch.Deploy.Dispatch.{Client, Server, create_job, dispatch_pending}
use librawatch.Deploy.Report.{Report, handle_exec_result}
use librawatch.Deploy.Sweep.{lease_sweeper_tick}

-- `connects` and `disconnects` are addClient and removeClient; `flushes` is a client's writePump,
-- which empties its send channel.
pub data Event : Type 0 where
  creates : ℕ → Job → ℤ → Event
  reports : ℕ → Report → Event
  cancels_job : Text → Event
  ticks : ℕ → Event
  connects : ℕ → Text → Event
  disconnects : Text → Event
  flushes : Text → Event

unfoldable pub remove_client : Text → List Client → List Client
remove_client agent = filter (λ c. not (text_eq c.agent_id agent))

unfoldable pub connect : ℕ → Text → Server → Server
unfolding remove_client dispatch_pending
connect now agent s =
    dispatch_pending now agent (record s {
      clients = record { agent_id = agent; send = [] } ∷ remove_client agent s.clients;
    })

unfoldable pub flush : Text → List Client → List Client
unfolding map_where
flush agent = map_where (λ c. text_eq c.agent_id agent) (λ c. record c { send = [] })

unfoldable pub step : Event → Server → Server
unfolding connect
step (creates now job max_retry) s = (create_job now job max_retry s).0
step (reports now msg) s = handle_exec_result now msg s
step (cancels_job id) s = record s { db = cancel_deploy_job id s.db }
step (ticks now) s = lease_sweeper_tick now s
step (connects now agent) s = connect now agent s
step (disconnects agent) s = record s { clients = remove_client agent s.clients }
step (flushes agent) s = record s { clients = flush agent s.clients }

unfoldable pub run : List Event → Server → Server
unfolding step
run [] s = s
run (e ∷ es) s = run es (step e s)
