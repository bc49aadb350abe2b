-- ===== src/Deploy/Store.antt =====
-- The statements of server/db.go on the two tables, but for the claim.
use librawatch.Common.{
  ℕ, Text, codes, text_eq, if◌then◌else◌, Bool, true, false, not, ◌&&◌, ◌==◌, ltb, Option, none,
  some, List, [], ◌∷◌, ◌++◌, map_where, count_where, filter, find, any, coalesce,
}
use librawatch.Common.Int.{ℤ, pos, negsuc}
use librawatch.Deploy.Model.{
  Status, is_running, is_pending, is_cancelled, is_pending_like, JobStatus, Job, Row, Db,
}

-- The arguments of UpdateDeployResult; `none` is nil.
pub record ResultUpdate : Type 0 where
  pub job_id : Text
  pub agent_id : Text
  pub status : Status
  pub output : Text
  pub exit_code : Option ℤ
  pub duration_ms : Option ℤ
  pub retry_count : Option ℕ
  pub expected_attempt : Option ℤ

-- ? IS NULL OR retry_count = ?
unfoldable pub attempt_matches : Option ℤ → ℕ → Bool
attempt_matches none n = true
attempt_matches (some (pos k)) n = k == n
attempt_matches (some (negsuc k)) n = false

-- job_id = ? AND agent_id = ?
unfoldable pub is_key : Text → Text → Row → Bool
is_key job agent r = text_eq r.job_id job && text_eq r.agent_id agent

unfoldable pub updates : ResultUpdate → Row → Bool
updates u r =
    is_key u.job_id u.agent_id r
    && (not (is_cancelled r.status) && attempt_matches u.expected_attempt r.retry_count)

abbrev pub or_old : Option ℕ → ℕ → ℕ
or_old (some new) old = new
or_old none old = old

unfoldable pub updated : ℕ → ResultUpdate → Row → Row
unfolding is_pending_like
updated now u r = record r {
  status = u.status;
  output = u.output;
  exit_code = coalesce u.exit_code r.exit_code;
  duration_ms = coalesce u.duration_ms r.duration_ms;
  retry_count = or_old u.retry_count r.retry_count;
  lease_until = none;
  executed_at = coalesce (if is_pending_like u.status then none else some now) r.executed_at;
}

-- The new tables, and the number of rows that the statement reached.
unfoldable pub update_deploy_result : ℕ → ResultUpdate → Db → Db × ℕ
unfolding updates updated
update_deploy_result now u db = (
  record db { results = map_where (updates u) (updated now u) db.results },
  count_where (updates u) db.results,
)

unfoldable pub insert_deploy_job : Job → Db → Db
insert_deploy_job job db = record db { jobs = db.jobs ++ job ∷ [] }

-- A new row: the columns that the statement leaves out have their defaults.
abbrev pub new_row : Text → Text → Status → Text → ℤ → Row
new_row job agent status output max_retry = record {
  job_id = job;
  agent_id = agent;
  status = status;
  output = output;
  executed_at = none;
  lease_until = none;
  retry_count = 0;
  max_retry = max_retry;
  exit_code = none;
  duration_ms = none;
}

unfoldable pub insert_deploy_result : Text → Text → Status → Text → ℤ → Db → Db
insert_deploy_result job agent status output max_retry db = record db {
  results = db.results ++ new_row job agent status output max_retry ∷ [];
}

unfoldable pub get_deploy_job_by_id : Text → Db → Option Job
get_deploy_job_by_id id db = find (λ j. text_eq j.id id) db.jobs

unfoldable pub get_deploy_results_by_job_id : Text → Db → List Row
get_deploy_results_by_job_id id db = filter (λ r. text_eq r.job_id id) db.results

unfoldable pub update_deploy_job_status : Text → JobStatus → Db → Db
update_deploy_job_status id status db = record db {
  jobs = map_where (λ j. text_eq j.id id) (λ j. record j { status = status }) db.jobs;
}

-- A job is done once none of its rows is in flight.
unfoldable pub update_job_status : Text → Db → Db
unfolding get_deploy_results_by_job_id update_deploy_job_status is_pending_like
update_job_status id db =
    if any (λ r. is_pending_like r.status) (get_deploy_results_by_job_id id db)
    then db
    else update_deploy_job_status id JobStatus.done db

unfoldable pub cancels : Text → Row → Bool
unfolding is_pending_like
cancels id r = text_eq r.job_id id && is_pending_like r.status

unfoldable pub cancelled_row : Row → Row
cancelled_row r = record r {
  status = Status.cancelled;
  output = codes "Job dibatalkan oleh admin";
  lease_until = none;
}

unfoldable pub cancel_deploy_job : Text → Db → Db
unfolding update_deploy_job_status cancels cancelled_row
cancel_deploy_job id db =
    let marked = update_deploy_job_status id JobStatus.cancelled db in
    record marked { results = map_where (cancels id) cancelled_row marked.results }

-- ? IS NOT NULL AND ? < now
abbrev pub past : ℕ → Option ℕ → Bool
past now none = false
past now (some t) = ltb t now

unfoldable pub lease_expired : ℕ → Row → Bool
lease_expired now r = is_running r.status && past now r.lease_until

unfoldable pub get_expired_lease_results : ℕ → Db → List Row
unfolding lease_expired
get_expired_lease_results now db = filter (lease_expired now) db.results

-- expire_at IS NOT NULL AND expire_at < ?, of the job that the row is joined with.
unfoldable pub job_expired : ℕ → Option Job → Bool
job_expired now none = false
job_expired now (some j) = past now j.expire_at

unfoldable pub get_expired_pending_results : ℕ → Db → List Row
unfolding job_expired get_deploy_job_by_id
get_expired_pending_results now db =
    filter (λ r. is_pending r.status && job_expired now (get_deploy_job_by_id r.job_id db))
      db.results

unfoldable pub count_pending_results_for_agent : Text → Db → ℕ
count_pending_results_for_agent agent db =
    count_where (λ r. text_eq r.agent_id agent && is_pending r.status) db.results
