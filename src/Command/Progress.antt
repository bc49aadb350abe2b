-- ===== src/Command/Progress.antt =====
-- handleGetCommand of server/commands.go, on the tables deploy_jobs, deploy_results and
-- command_requests.
use librawatch.Common.{
  ℕ, ◌+◌, Text, codes, text_eq, length, find, if◌then◌else◌, Option, none, some, List, [], ◌∷◌,
}
use librawatch.Deploy.Model.{Status, other, JobStatus, Job, Row, Db}
use librawatch.Deploy.Store.{get_deploy_job_by_id, get_deploy_results_by_job_id}
use librawatch.Command.Create.{RequestRow}

pub record CommandProgress : Type 0 where
  pub total : ℕ
  pub dispatched : ℕ
  pub succeeded : ℕ
  pub failed : ℕ
  pub pending : ℕ

-- The cases of the switch on a row's status.
pub data RowCase : Type 0 where
  waits runs succeeds fails : RowCase

unfoldable pub row_case : Status → RowCase
unfolding text_eq
row_case Status.pending = waits
row_case Status.running = runs
row_case Status.success = succeeds
row_case (other t) =
    if text_eq t (codes "deferred")
    then waits
    else if text_eq t (codes "ok")
    then succeeds
    else fails
row_case _ = fails

abbrev pub first_error_or : Text → Option Text → Option Text
first_error_or output none = some output
first_error_or output (some e) = some e

unfoldable pub count_row :
    RowCase → Text → CommandProgress × Option Text → CommandProgress × Option Text
count_row waits output (p, e) = (record p { pending = p.pending + 1 }, e)
count_row runs output (p, e) = (record p { dispatched = p.dispatched + 1 }, e)
count_row succeeds output (p, e) = (record p { succeeded = p.succeeded + 1 }, e)
count_row fails output (p, e) = (record p { failed = p.failed + 1 }, first_error_or output e)

unfoldable pub count_rows : List Row → CommandProgress × Option Text → CommandProgress × Option Text
unfolding count_row row_case
count_rows [] acc = acc
count_rows (r ∷ rows) acc = count_rows rows (count_row (row_case r.status) r.output acc)

abbrev pub no_progress : ℕ → CommandProgress
no_progress total = record { total = total; dispatched = 0; succeeded = 0; failed = 0; pending = 0 }

pub record CommandStatus : Type 0 where
  pub job_id : Text
  pub target : Text
  pub action : Text
  pub status : JobStatus
  pub correlation_id : Text
  pub created_at : ℕ
  pub progress : CommandProgress
  pub results : List Row
  pub error : Option Text

abbrev pub status_with : Job → RequestRow → List Row → CommandProgress × Option Text → CommandStatus
status_with job meta results (progress, e) = record {
  job_id = job.id;
  target = meta.target;
  action = meta.action;
  status = job.status;
  correlation_id = meta.correlation_id;
  created_at = job.created_at;
  progress = progress;
  results = results;
  error = e;
}

unfoldable pub command_status : Job → RequestRow → List Row → CommandStatus
unfolding count_rows
command_status job meta results =
    status_with job meta results (count_rows results (no_progress (length results), none))

unfoldable pub get_command_request : Text → List RequestRow → Option RequestRow
unfolding find text_eq
get_command_request id requests = find (λ q. text_eq q.job_id id) requests

abbrev pub status_of : Db → Option Job → Option RequestRow → Option CommandStatus
status_of db (some job) (some meta) =
    some (command_status job meta (get_deploy_results_by_job_id job.id db))
status_of db _ _ = none

-- None is the answer 404.
unfoldable pub handle_get_command : Db → List RequestRow → Text → Option CommandStatus
unfolding get_deploy_job_by_id get_command_request command_status get_deploy_results_by_job_id
handle_get_command db requests id =
    status_of db (get_deploy_job_by_id id db) (get_command_request id requests)
