-- ===== src/Deploy/Model.antt =====
-- The tables deploy_jobs and deploy_results (server/db.go). A table is the list of its rows in
-- the order of insertion; a timestamp is its number of seconds, which the text that the
-- database compares orders the same way.
use librawatch.Common.{
  ℕ, Text, codes, text_eq, if◌then◌else◌, Bool, true, false, ◌||◌, Option, List,
}
use librawatch.Common.Int.{ℤ}

-- The status column. Another text, such as one that an agent makes up, is `other`.
pub data Status : Type 0 where
  pending running success error failed expired cancelled : Status
  other : Text → Status

abbrev pub is_pending : Status → Bool
is_pending Status.pending = true
is_pending _ = false

abbrev pub is_running : Status → Bool
is_running running = true
is_running _ = false

abbrev pub is_cancelled : Status → Bool
is_cancelled Status.cancelled = true
is_cancelled _ = false

-- A row that no result has reached.
unfoldable pub is_pending_like : Status → Bool
is_pending_like s = is_pending s || is_running s

-- How the column's text, and the status of an agent's message, is read.
unfoldable pub parse_status : Text → Status
unfolding text_eq
parse_status t =
    if text_eq t (codes "pending")
    then pending
    else if text_eq t (codes "running")
    then running
    else if text_eq t (codes "success")
    then success
    else if text_eq t (codes "error")
    then error
    else if text_eq t (codes "failed")
    then failed
    else if text_eq t (codes "expired")
    then expired
    else if text_eq t (codes "cancelled")
    then cancelled
    else other t

pub data JobStatus : Type 0 where
  pending dispatched done cancelled : JobStatus

pub record Job : Type 0 where
  pub id : Text
  pub type : Text
  pub payload : Text
  pub args : Text
  pub targets : List Text
  pub status : JobStatus
  pub priority : ℤ
  pub expire_at : Option ℕ
  pub created_by : Text
  pub created_at : ℕ

pub record Row : Type 0 where
  pub job_id : Text
  pub agent_id : Text
  pub status : Status
  pub output : Text
  pub executed_at : Option ℕ
  pub lease_until : Option ℕ
  pub retry_count : ℕ
  pub max_retry : ℤ
  pub exit_code : Option ℤ
  pub duration_ms : Option ℤ

pub record Db : Type 0 where
  pub jobs : List Job
  pub results : List Row
