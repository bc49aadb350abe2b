-- ===== src/Deploy/Statements.antt =====
-- The statements on the two tables that change them, and the invariant of the rows.
use librawatch.Common.{ℕ, ◌≤◌, Text, false, [], All, count_where, is_some, ◌≡◌}
use librawatch.Common.Int.{ℤ}
use librawatch.Deploy.Model.{Status, is_running, JobStatus, Job, Row, Db}
use librawatch.Deploy.Store.{
  ResultUpdate, is_key, update_deploy_result, insert_deploy_job, insert_deploy_result,
  update_deploy_job_status, update_job_status, cancel_deploy_job,
}
use librawatch.Deploy.Claim.{runs_on, acquire_next_job}

-- The statements that change the tables.
pub data Op : Type 0 where
  insert_job : Job → Op
  insert_result : Text → Text → ℤ → Op
  acquire : ℕ → ℕ → Text → Op
  update : ℕ → ResultUpdate → Op
  cancel : Text → Op
  settle : Text → Op
  mark : Text → JobStatus → Op

unfoldable pub exec : Op → Db → Db
exec (insert_job j) db = insert_deploy_job j db
exec (insert_result job agent n) db = insert_deploy_result job agent Status.pending [] n db
exec (acquire now lease agent) db = (acquire_next_job now lease agent db).0
exec (update now u) db = (update_deploy_result now u db).0
exec (cancel id) db = cancel_deploy_job id db
exec (settle id) db = update_job_status id db
exec (mark id s) db = update_deploy_job_status id s db

-- A job has one row for an agent, and no result claims that a row is running.
abbrev pub IsLawful : Op → Db → Type 0
IsLawful (insert_result job agent n) db = count_where (is_key job agent) db.results ≡ 0
IsLawful (update now u) db = is_running u.status ≡ false
IsLawful (insert_job j) db = Unit
IsLawful (acquire now lease agent) db = Unit
IsLawful (cancel id) db = Unit
IsLawful (settle id) db = Unit
IsLawful (mark id s) db = Unit

-- A row has a lease exactly while it runs.
abbrev pub IsLeased : Row → Type 0
IsLeased r = is_some r.lease_until ≡ is_running r.status

pub record Inv (db : Db) : Type 0 where
  pub one_row : (job agent : Text) → count_where (is_key job agent) db.results ≤ 1
  pub one_running : (agent : Text) → count_where (runs_on agent) db.results ≤ 1
  pub leased : All IsLeased db.results
