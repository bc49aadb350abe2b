-- ===== src/Tests/Post.antt =====
-- The theorems on the requests to the command API at concrete requests.
use librawatch.Common.{Text, codes, false, map_where, count_where, none, [], ◌∷◌, ◌≡◌, refl}
use librawatch.Common.Int.{pos}
use librawatch.Deploy.Model.{Status, other, JobStatus, Db}
use librawatch.Deploy.Store.{
  new_row, get_deploy_job_by_id, get_deploy_results_by_job_id, insert_deploy_result,
  insert_deploy_job, update_deploy_result, attempt_matches,
}
use librawatch.Deploy.Claim.{acquire_next_job}
use librawatch.Deploy.Dispatch.{Server}
use librawatch.Command.Target.{AgentRow}
use librawatch.Command.Network.{both, offline}
use librawatch.Command.Create.{
  CommandRequest, CommandState, Environment, internal_error, accepted, command_job,
}
use librawatch.Command.Post.{handle_post_command}
use librawatch.Command.Refusal.{Answers, request_row, handle_post_command-Answers}
use librawatch.Command.Progress.{handle_get_command}
use librawatch.Command.Counts.{ReportsTo, handle_get_command-Reports}

abbrev server : Server
server = record {
  db = record { jobs = []; results = [] };
  agents = codes "pc-1" ∷ codes "pc-2" ∷ [];
  clients = record { agent_id = codes "pc-1"; send = [] } ∷ [];
  notified = [];
  lease_minutes = 10;
  file_checksum = λ _. none;
}

abbrev pc : Text → AgentRow
pc id = record { id = id; hostname = id; device_group = codes "lab"; floor = codes "1" }

abbrev state : CommandState
state = record {
  server = server;
  agents = pc (codes "pc-1") ∷ pc (codes "pc-2") ∷ [];
  desired = λ _. both;
  toggles = [];
  wakes = [];
  requests = [];
}

abbrev environment : Environment
environment = record {
  parse_time = λ _. none;
  push = λ _ _. offline;
  parse_ipv6 = λ _. none;
  mac_of = λ _. [];
  ip_of = λ _. [];
  sends = λ _. false;
  wol = record { enabled = false; port = 9; networks = [] };
  default_max_retry = pos 3;
}

abbrev request_of : Text → Text → CommandRequest
request_of action process = record {
  target = codes "lab";
  action = action;
  parameters = record { process = process; message = []; command = [] };
  deploy_parameters = record {
    type = [];
    payload = [];
    args = [];
    priority = pos 0;
    max_retry = none;
    expire_at = [];
  };
  requested_by = [];
  correlation_id = codes "t-1";
}

abbrev restart : CommandRequest
restart = request_of (codes "restart") []

handle_post_command-Answers_example :
    Answers 5
      (codes "j1")
      restart
      state
      (handle_post_command environment 5 (codes "j1") restart state)
handle_post_command-Answers_example =
    handle_post_command-Answers environment 5 (codes "j1") restart state

-- One of the two agents is not connected, so that the job is pending.
restart_test :
    (handle_post_command environment 5 (codes "j1") restart state).1
    ≡ accepted (codes "j1") JobStatus.pending 0
unfolding handle_post_command get_deploy_job_by_id get_deploy_results_by_job_id acquire_next_job
    count_where insert_deploy_result insert_deploy_job map_where update_deploy_result
    attempt_matches
restart_test = refl

-- A name that is no program's is the client's mistake, and answered with 500.
kill_test :
    (handle_post_command environment 5
      (codes "j1")
      (request_of (codes "kill_process") (codes "a b"))
      state).1
    ≡ internal_error
unfolding handle_post_command
kill_test = refl

abbrev tables : Db
tables = record {
  jobs =
      command_job (codes "j1") (codes "exec") (codes "dir") [] (codes "pc-1" ∷ []) (pos 0) none
        (codes "api")
      ∷ [];
  results =
      new_row (codes "j1") (codes "pc-1") Status.error (codes "denied") (pos 3)
      ∷ new_row (codes "j1") (codes "pc-2") (other (codes "ok")) [] (pos 3)
      ∷ new_row (codes "j1") (codes "pc-3") Status.running [] (pos 3)
      ∷ [];
}

handle_get_command-Reports_example :
    ReportsTo (handle_get_command tables (request_row 5 (codes "j1") restart ∷ []) (codes "j1"))
handle_get_command-Reports_example =
    handle_get_command-Reports tables (request_row 5 (codes "j1") restart ∷ []) (codes "j1")
