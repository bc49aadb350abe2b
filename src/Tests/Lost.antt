-- ===== src/Tests/Lost.antt =====
-- A command that succeeds after its lease has run out: the agent's answers, which carry the first
-- attempt, are ignored, and the row ends failed.
use librawatch.Common.{
  codes, text_eq, any, find, count_where, map_where, filter, map, none, some, List, [], ◌∷◌, ◌≡◌,
  refl,
}
use librawatch.Common.Int.{pos}
use librawatch.Deploy.Model.{Status, JobStatus, Job, Row}
use librawatch.Deploy.Store.{
  attempt_matches, update_deploy_result, insert_deploy_job, insert_deploy_result,
  get_deploy_results_by_job_id, update_deploy_job_status, update_job_status,
}
use librawatch.Deploy.Claim.{acquire_next_job}
use librawatch.Deploy.Sweep.{lease_sweeper_tick}
use librawatch.Shared.Command.{is_destructive_payload}
use librawatch.Deploy.Dispatch.{Server, create_job}
use librawatch.Deploy.Report.{Report, handle_exec_result}
use librawatch.Deploy.Run.{Event, creates, ticks, reports, run}

abbrev job : Job
job = record {
  id = codes "j";
  type = codes "exec";
  payload = codes "dir";
  args = [];
  targets = codes "p" ∷ [];
  status = JobStatus.pending;
  priority = pos 0;
  expire_at = none;
  created_by = codes "admin";
  created_at = 5;
}

abbrev server : Server
server = record {
  db = record { jobs = []; results = [] };
  agents = codes "p" ∷ [];
  clients = record { agent_id = codes "p"; send = [] } ∷ [];
  notified = [];
  lease_minutes = 10;
  file_checksum = λ _. none;
}

-- The result of the first attempt.
abbrev succeeded : Report
succeeded = record {
  job_id = codes "j";
  agent_id = codes "p";
  attempt = some (pos 0);
  status = codes "success";
  output = [];
  exit_code = some (pos 0);
  duration_ms = none;
}

abbrev events : List Event
events =
    creates 5 job (pos 1)
    ∷ ticks 1000
    ∷ reports 1010 succeeded
    ∷ reports 1020 succeeded
    ∷ ticks 3000
    ∷ []

statuses : Server → List Status
statuses s = map (λ (r : Row). r.status) s.db.results

lost_test : statuses (run events server) ≡ Status.failed ∷ []
unfolding statuses run text_eq any find count_where map_where lease_sweeper_tick filter
    handle_exec_result update_deploy_result create_job get_deploy_results_by_job_id acquire_next_job
    insert_deploy_result insert_deploy_job update_deploy_job_status update_job_status
    is_destructive_payload attempt_matches
lost_test = refl
