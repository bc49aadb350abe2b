-- ===== src/Deploy/Dispatch.antt =====
-- The Deployer of server/deploy.go and what it uses of the Hub of server/hub.go.
-- A send channel is the list of the messages that wait in it.
use librawatch.Common.{
  ℕ, ◌+◌, ◌*◌, Text, codes, text_eq, length, ltb, if◌then◌else◌, Bool, true, false, Option, none,
  some, List, [], ◌∷◌, ◌++◌, any, is_some,
}
use librawatch.Common.Int.{ℤ}
use librawatch.Deploy.Model.{Status, is_pending, JobStatus, Job, Db}
use librawatch.Deploy.Store.{
  ResultUpdate, update_deploy_result, insert_deploy_job, insert_deploy_result, get_deploy_job_by_id,
  get_deploy_results_by_job_id, update_deploy_job_status, update_job_status,
}
use librawatch.Deploy.Claim.{acquire_next_job}

-- The fields of an OutgoingMessage that a command, its acknowledgement or the deletion of a file
-- fills.
pub record Message : Type 0 where
  pub type : Text
  pub job_id : Text
  pub attempt : Option ℕ
  pub payload : Text
  pub filename : Text
  pub checksum : Text
  pub args : Text
  pub action : Text
  pub password : Text
  pub path : Text
  pub expire_at : Option ℕ

pub record Client : Type 0 where
  pub agent_id : Text
  pub send : List Message

-- The deployer with its database and hub. `agents` is the key of the table agents,
-- `lease_minutes` the setting, `file_checksum` reads an uploaded file, and `notified` holds the
-- agents and jobs of the failures that notifyDeployFailure has been called for.
pub record Server : Type 0 where
  pub db : Db
  pub agents : List Text
  pub clients : List Client
  pub notified : List (Text × Text)
  pub lease_minutes : ℕ
  pub file_checksum : Text → Option Text

-- make(chan []byte, 256)
abbrev pub send_buffer : ℕ
send_buffer = 256

unfoldable pub send_to : Text → Message → List Client → List Client × Bool
send_to agent m [] = ([], false)
send_to agent m (c ∷ cs) =
    let (cs', sent) = send_to agent m cs in
    if text_eq c.agent_id agent
    then (if ltb (length c.send) send_buffer
        then (record c { send = c.send ++ m ∷ [] } ∷ cs, true)
        else (c ∷ cs, false))
    else (c ∷ cs', sent)

unfoldable pub send_to_agent : Text → Message → Server → Server × Bool
unfolding send_to
send_to_agent agent m s =
    let (cs, sent) = send_to agent m s.clients in (record s { clients = cs }, sent)

abbrev pub text_or_empty : Option Text → Text
text_or_empty none = []
text_or_empty (some t) = t

-- The message of dispatch, without the fields that depend on the job's type.
unfoldable pub job_message : Job → ℕ → Message
job_message job attempt = record {
  type = job.type;
  job_id = job.id;
  attempt = some attempt;
  payload = job.payload;
  filename = [];
  checksum = [];
  args = job.args;
  action = [];
  password = [];
  path = [];
  expire_at = job.expire_at;
}

unfoldable pub command_message : (Text → Option Text) → Job → ℕ → Message
unfolding job_message text_eq
command_message file_checksum job attempt =
    let m = job_message job attempt in
    if text_eq job.type (codes "file_deploy")
    then record m { filename = job.payload; checksum = text_or_empty (file_checksum job.payload) }
    else if text_eq job.type (codes "deepfreeze")
    then record m { action = job.payload; password = job.args }
    else if text_eq job.type (codes "install_ssh")
    then record m { action = codes "install_ssh" }
    else m

unfoldable pub dispatch : Text → Job → ℕ → Server → Server × Bool
unfolding command_message send_to_agent
dispatch agent job attempt s = send_to_agent agent (command_message s.file_checksum job attempt) s

-- A transition of the server's own: no result fields, and no attempt to match.
abbrev pub transition : Text → Text → Status → Text → Option ℕ → ResultUpdate
transition job agent status output retry_count = record {
  job_id = job;
  agent_id = agent;
  status = status;
  output = output;
  exit_code = none;
  duration_ms = none;
  retry_count = retry_count;
  expected_attempt = none;
}

unfoldable pub apply_update : ℕ → ResultUpdate → Server → Server
apply_update now u s = record s { db = (update_deploy_result now u s.db).0 }

-- The claim of a job that could not be sent is released.
unfoldable pub sent_or_released : ℕ → Text → Job → Server × Bool → Server × Bool
unfolding apply_update
sent_or_released now agent job (s, true) = (s, true)
sent_or_released now agent job (s, false) =
    (apply_update now (transition job.id agent Status.pending [] none) s, false)

unfoldable pub deliver : ℕ → Text → Server → Option (Job × ℕ) → Server × Bool
unfolding dispatch sent_or_released
deliver now agent s none = (s, false)
deliver now agent s (some (job, attempt)) =
    sent_or_released now agent job (dispatch agent job attempt s)

unfoldable pub pump_agent : ℕ → Text → Server → Server × Bool
unfolding deliver
pump_agent now agent s =
    let (db, got) = acquire_next_job now (now + s.lease_minutes * 60) agent s.db in
    deliver now agent (record s { db = db }) got

-- DispatchPending
unfoldable pub dispatch_pending : ℕ → Text → Server → Server
unfolding pump_agent
dispatch_pending now agent s = (pump_agent now agent s).0

unfoldable pub settle_job : Text → Server → Server
settle_job id s = record s { db = update_job_status id s.db }

unfoldable pub resolve_targets : List Text → List Text → List Text
unfolding any text_eq
resolve_targets agents targets =
    if any (λ t. text_eq t (codes "*")) targets then agents else targets

-- The foreign key refuses a row for an agent that is not in the table; that is only logged.
unfoldable pub insert_for : Text → ℤ → Text → Server → Server
insert_for job max_retry agent s =
    if any (λ a. text_eq a agent) s.agents
    then record s { db = insert_deploy_result job agent Status.pending [] max_retry s.db }
    else s

unfoldable pub insert_all : Text → ℤ → List Text → Server → Server
unfolding insert_for
insert_all job max_retry [] s = s
insert_all job max_retry (a ∷ rest) s = insert_all job max_retry rest (insert_for job max_retry a s)

unfoldable pub pump_all : ℕ → List Text → Server → Server
unfolding pump_agent
pump_all now [] s = s
pump_all now (a ∷ rest) s = pump_all now rest (pump_agent now a s).0

-- Once no row of the job is pending the job counts as dispatched.
unfoldable pub mark_dispatched : Job → Server → Server × Job
mark_dispatched job s =
    if any (λ r. is_pending r.status) (get_deploy_results_by_job_id job.id s.db)
    then (s, job)
    else (
      record s { db = update_deploy_job_status job.id JobStatus.dispatched s.db },
      record job { status = JobStatus.dispatched },
    )

pub data Created : Type 0 where
  created : Job → Created
  no_target_agents : Created
  insert_failed : Created

abbrev pub created_job : Server × Job → Server × Created
created_job (s, job) = (s, created job)

unfoldable pub create_resolved : ℕ → Job → ℤ → List Text → Server → Server × Created
unfolding insert_all pump_all mark_dispatched
create_resolved now job max_retry [] s = (s, no_target_agents)
create_resolved now job max_retry (a ∷ rest) s =
    if is_some (get_deploy_job_by_id job.id s.db)
    then (s, insert_failed)
    else created_job (
        mark_dispatched job (
          pump_all now (a ∷ rest) (
            insert_all job.id max_retry (a ∷ rest) (record s { db = insert_deploy_job job s.db }))))

-- CreateJob. The job comes with its generated id; its status and time are set here.
unfoldable pub create_job : ℕ → Job → ℤ → Server → Server × Created
unfolding create_resolved resolve_targets
create_job now job max_retry s =
    create_resolved now (record job { status = JobStatus.pending; created_at = now }) max_retry
      (resolve_targets s.agents job.targets) s
