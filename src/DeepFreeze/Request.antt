-- ===== src/DeepFreeze/Request.antt =====
-- server/deepfreeze.go, and the route /agents/:id/deepfreeze of server/api.go.
use librawatch.Common.{
  ℕ, Text, codes, text_eq, trim_space, any, Bool, true, false, not, ◌&&◌, if◌then◌else◌, Option,
  none, some, List, [], ◌∷◌,
}
use librawatch.Common.Int.{ℤ, pos}
use librawatch.Shared.Product.{to_upper}
use librawatch.Deploy.Model.{Status, other, is_pending_like, JobStatus, Job, Row}
use librawatch.Deploy.Dispatch.{Server, Created, created, create_job}

-- The map deepFreezeActions.
unfoldable pub deep_freeze_action : Text → Option Text
unfolding text_eq
deep_freeze_action action =
    if text_eq action (codes "freeze")
    then some (codes "freeze")
    else if text_eq action (codes "thaw")
    then some (codes "thaw")
    else if text_eq action (codes "status")
    then some (codes "query_df")
    else none

abbrev pub valid_deep_freeze_job_actions : List Text
valid_deep_freeze_job_actions = codes "freeze" ∷ codes "thaw" ∷ codes "query_df" ∷ []

abbrev pub deep_freeze_job : Text → Text → Text → Text → Text → Job
deep_freeze_job id agent action password created_by = record {
  id = id;
  type = codes "deepfreeze";
  payload = action;
  args = password;
  targets = agent ∷ [];
  status = JobStatus.pending;
  priority = pos 0;
  expire_at = none;
  created_by = created_by;
  created_at = 0;
}

-- The id is the one that is generated, and max_retry the setting.
unfoldable pub dispatch_deep_freeze :
    ℕ → Text → ℤ → Text → Text → Text → Text → Server → Server × Option Created
unfolding create_job any text_eq
dispatch_deep_freeze now id max_retry agent action password created_by s =
    if any (text_eq action) valid_deep_freeze_job_actions
    then (let (s', result) =
          create_job now (deep_freeze_job id agent action password created_by) max_retry s in
        (s', some result))
    else (s, none)

pub record Verdict : Type 0 where
  pub status : Text
  pub detail : Text

abbrev pub is_ok : Status → Bool
is_ok (other t) = text_eq t (codes "ok")
is_ok _ = false

unfoldable pub parse_deep_freeze_output : Status → Text → Verdict
unfolding text_eq to_upper trim_space
parse_deep_freeze_output status output =
    let said = to_upper (trim_space output) in
    if not (is_ok status)
    then record { status = codes "error"; detail = output }
    else if text_eq said (codes "FROZEN")
    then record { status = codes "frozen"; detail = [] }
    else if text_eq said (codes "THAWED")
    then record { status = codes "thawed"; detail = [] }
    else record { status = codes "unknown"; detail = output }

unfoldable pub is_answer : Text → Row → Bool
unfolding text_eq is_pending_like
is_answer agent r = text_eq r.agent_id agent && not (is_pending_like r.status)

unfoldable pub first_answer : Text → List Row → Option Verdict
unfolding is_answer parse_deep_freeze_output
first_answer agent [] = none
first_answer agent (r ∷ rows) =
    if is_answer agent r
    then some (parse_deep_freeze_output r.status r.output)
    else first_answer agent rows

-- One turn of the loop: the rows of the job, unless the query fails, and whether the request is
-- cancelled while it waits.
pub record Poll : Type 0 where
  pub rows : Option (List Row)
  pub cancelled : Bool

abbrev pub answer_in : Text → Option (List Row) → Option Verdict
answer_in agent none = none
answer_in agent (some rows) = first_answer agent rows

abbrev pub answered_or_wait : Option Verdict → Bool → Verdict → Verdict
answered_or_wait (some v) cancelled rest = v
answered_or_wait none true rest = record {
  status = codes "unknown";
  detail = codes "request cancelled";
}
answered_or_wait none false rest = rest

-- The turns end when the time is over.
unfoldable pub poll_deep_freeze_result : Text → List Poll → Verdict
unfolding first_answer
poll_deep_freeze_result agent [] = record { status = codes "pending"; detail = [] }
poll_deep_freeze_result agent (p ∷ polls) =
    answered_or_wait (answer_in agent p.rows) p.cancelled (poll_deep_freeze_result agent polls)

-- The answers of the route.
pub data DeepFreezeAnswer : Type 0 where
  bad_action agent_not_found no_password not_created : DeepFreezeAnswer
  queued : Job → DeepFreezeAnswer
  offline : Job → DeepFreezeAnswer
  answered : Job → Verdict → DeepFreezeAnswer

abbrev pub is_dispatched : JobStatus → Bool
is_dispatched JobStatus.dispatched = true
is_dispatched _ = false

unfoldable pub answer_dispatch :
    Bool → Text → List Poll → Server × Option Created → Server × DeepFreezeAnswer
unfolding poll_deep_freeze_result
answer_dispatch is_status agent polls (s, some (created job)) = (
  s,
  if is_status
      then (if is_dispatched job.status
          then answered job (poll_deep_freeze_result agent polls)
          else offline job)
      else queued job,
)
answer_dispatch is_status agent polls (s, _) = (s, not_created)

unfoldable pub dispatch_action :
    ℕ → Text → ℤ → Text → Text → Text → List Poll → Server → Option Text → Server × DeepFreezeAnswer
unfolding answer_dispatch dispatch_deep_freeze any text_eq
dispatch_action now id max_retry configured agent action polls s none = (s, bad_action)
dispatch_action now id max_retry configured agent action polls s (some job_action) =
    let is_status = text_eq action (codes "status") in
    if not (any (text_eq agent) s.agents)
    then (s, agent_not_found)
    else if not is_status && text_eq configured []
    then (s, no_password)
    else answer_dispatch is_status agent polls (
        dispatch_deep_freeze now id max_retry agent job_action
          (if is_status then [] else configured) (codes "api") s)

-- The handler; `configured` is the password of the configuration, and `polls` what the database
-- says while a request for the status waits.
unfoldable pub post_deep_freeze :
    ℕ → Text → ℤ → Text → Text → Text → List Poll → Server → Server × DeepFreezeAnswer
unfolding dispatch_action deep_freeze_action
post_deep_freeze now id max_retry configured agent action polls s =
    dispatch_action now id max_retry configured agent action polls s (deep_freeze_action action)
