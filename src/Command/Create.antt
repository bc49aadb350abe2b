-- ===== src/Command/Create.antt =====
-- The creation of a command's job in server/commands.go: the switch of handlePostCommand and
-- createDeployPassthroughCommand. The rows of a network toggle and of a wake, which never enter the
-- queue, are kept beside it. The id of the job is the one that is generated.
use librawatch.Common.{
  ℕ, Text, codes, text_eq, Bool, not, ◌&&◌, ◌||◌, ltb, if◌then◌else◌, Option, none, some, is_some,
  List, [], ◌∷◌, ◌++◌,
}
use librawatch.Common.Int.{ℤ, pos}
use librawatch.Deploy.Model.{JobStatus, Job}
use librawatch.Deploy.Dispatch.{
  Server, Created, created, no_target_agents, insert_failed, create_job,
}
use librawatch.Software.Uninstall.{validate_deploy_request}
use librawatch.Wake.Request.{
  WolConfig, WakeRow, WakeAnswer, refuses, done, Sent, create_wake_command,
}
use librawatch.Command.Target.{AgentRow}
use librawatch.Command.Action.{Params, action_to_job}
use librawatch.Command.Network.{
  Toggle, enable_wifi, disable_wifi, enable_lan, disable_lan, Mode, PushResult, ToggleRow,
  ToggleState, create_network_toggle_command,
}

-- The parameters of the action deploy, empty where they are missing or of another type.
pub record DeployParams : Type 0 where
  pub type : Text
  pub payload : Text
  pub args : Text
  pub priority : ℤ
  pub max_retry : Option ℤ
  pub expire_at : Text

pub record CommandRequest : Type 0 where
  pub target : Text
  pub action : Text
  pub parameters : Params
  pub deploy_parameters : DeployParams
  pub requested_by : Text
  pub correlation_id : Text

pub record RequestRow : Type 0 where
  pub job_id : Text
  pub action : Text
  pub target : Text
  pub correlation_id : Text
  pub created_at : ℕ

-- `desired` is the desired network mode of each agent.
pub record CommandState : Type 0 where
  pub server : Server
  pub agents : List AgentRow
  pub desired : Text → Mode
  pub toggles : List (Text × List ToggleRow)
  pub wakes : List (Text × List WakeRow)
  pub requests : List RequestRow

-- What the handler takes from elsewhere: the reading of an RFC 3339 time, the answer to a push of a
-- network mode, what a wake uses, and the setting default_max_retry.
pub record Environment : Type 0 where
  pub parse_time : Text → Option ℕ
  pub push : Text → Mode → PushResult
  pub parse_ipv6 : Text → Option ℕ
  pub mac_of : Text → Text
  pub ip_of : Text → Text
  pub sends : Sent → Bool
  pub wol : WolConfig
  pub default_max_retry : ℤ

-- The status 400, 404, 501 or 500 without its text, or the response.
pub data CommandAnswer : Type 0 where
  bad_request no_command_target not_implemented internal_error : CommandAnswer
  accepted : (job_id : Text) → (status : JobStatus) → (queue_position : ℕ) → CommandAnswer

-- What the creation of a job returns: an error of the client, another error, or the job's status.
pub data Made : Type 0 where
  client_error other_error : Made
  makes : JobStatus → Made

abbrev pub valid_command_actions : List Text
valid_command_actions =
    codes "restart"
    ∷ codes "shutdown"
    ∷ codes "lock"
    ∷ codes "unlock"
    ∷ codes "logout"
    ∷ codes "sleep"
    ∷ codes "wake"
    ∷ codes "kill_process"
    ∷ codes "broadcast"
    ∷ codes "popup"
    ∷ codes "deploy"
    ∷ codes "run_command"
    ∷ codes "enable_wifi"
    ∷ codes "disable_wifi"
    ∷ codes "enable_lan"
    ∷ codes "disable_lan"
    ∷ codes "refresh_policy"
    ∷ codes "collect_inventory"
    ∷ codes "take_screenshot"
    ∷ []

abbrev pub not_implemented_actions : List Text
not_implemented_actions =
    codes "refresh_policy" ∷ codes "collect_inventory" ∷ codes "take_screenshot" ∷ []

abbrev pub command_job : Text → Text → Text → Text → List Text → ℤ → Option ℕ → Text → Job
command_job id type payload args targets priority expire_at created_by = record {
  id = id;
  type = type;
  payload = payload;
  args = args;
  targets = targets;
  status = JobStatus.pending;
  priority = priority;
  expire_at = expire_at;
  created_by = created_by;
  created_at = 0;
}

abbrev pub made_by : CommandState → Server × Created → CommandState × Made
made_by s (server, created job) = (record s { server = server }, makes job.status)
made_by s (server, no_target_agents) = (record s { server = server }, other_error)
made_by s (server, insert_failed) = (record s { server = server }, other_error)

unfoldable pub create_deploy_job : ℕ → ℤ → Job → CommandState → CommandState × Made
unfolding create_job
create_deploy_job now max_retry job s = made_by s (create_job now job max_retry s.server)

-- expire_at: absent, refused, or a time that is not in the past.
abbrev pub check_expiry_time : ℕ → Option ℕ → Option (Option ℕ)
check_expiry_time now none = none
check_expiry_time now (some t) = if ltb t now then none else some (some t)

unfoldable pub read_expire_at : (Text → Option ℕ) → ℕ → Text → Option (Option ℕ)
unfolding text_eq
read_expire_at parse_time now t =
    if text_eq t [] then some none else check_expiry_time now (parse_time t)

abbrev pub max_retry_or : ℤ → Option ℤ → ℤ
max_retry_or default none = default
max_retry_or default (some n) = n

abbrev pub passthrough_until :
    ℕ
    → ℤ
    → Text
    → List Text
    → Text
    → DeployParams
    → CommandState
    → Option (Option ℕ)
    → CommandState × Made
passthrough_until now default_retry id agents by p s none = (s, client_error)
passthrough_until now default_retry id agents by p s (some expire_at) =
    create_deploy_job now (max_retry_or default_retry p.max_retry)
      (command_job id p.type p.payload p.args agents p.priority expire_at by) s

unfoldable pub create_deploy_passthrough_command :
    Environment → ℕ → Text → List Text → Text → DeployParams → CommandState → CommandState × Made
unfolding create_deploy_job validate_deploy_request read_expire_at text_eq
create_deploy_passthrough_command env now id agents by p s =
    if text_eq p.type [] || (not (text_eq p.type (codes "install_ssh")) && text_eq p.payload [])
    then (s, client_error)
    else if is_some (validate_deploy_request p.type p.payload p.args)
    then (s, client_error)
    else passthrough_until now env.default_max_retry id agents by p s
        (read_expire_at env.parse_time now p.expire_at)

abbrev pub toggle_made : Text → CommandState → Option ToggleState → CommandState × Made
toggle_made id s none = (s, client_error)
toggle_made id s (some t) = (
  record s { desired = t.desired; toggles = s.toggles ++ (id, t.rows) ∷ [] },
  makes JobStatus.done,
)

abbrev pub wake_made : Text → CommandState → WakeAnswer → CommandState × Made
wake_made id s (refuses r) = (s, client_error)
wake_made id s (done rows) = (record s { wakes = s.wakes ++ (id, rows) ∷ [] }, makes JobStatus.done)

-- An action that cannot be mapped to a job is an error that is not the client's.
abbrev pub exec_made :
    Environment → ℕ → Text → List Text → Text → CommandState → Option Text → CommandState × Made
exec_made env now id agents by s none = (s, other_error)
exec_made env now id agents by s (some payload) =
    if is_some (validate_deploy_request (codes "exec") payload [])
    then (s, client_error)
    else create_deploy_job now env.default_max_retry
        (command_job id (codes "exec") payload [] agents (pos 0) none by) s

-- The four actions that toggle a network.
unfoldable pub toggle_of : Text → Option Toggle
unfolding text_eq
toggle_of action =
    if text_eq action (codes "enable_wifi")
    then some enable_wifi
    else if text_eq action (codes "disable_wifi")
    then some disable_wifi
    else if text_eq action (codes "enable_lan")
    then some enable_lan
    else if text_eq action (codes "disable_lan")
    then some disable_lan
    else none

unfoldable pub create_other_command :
    Environment → ℕ → Text → List Text → Text → CommandRequest → CommandState → CommandState × Made
unfolding create_deploy_passthrough_command create_wake_command action_to_job create_deploy_job
    validate_deploy_request text_eq
create_other_command env now id agents by req s =
    if text_eq req.action (codes "deploy")
    then create_deploy_passthrough_command env now id agents by req.deploy_parameters s
    else if text_eq req.action (codes "wake")
    then wake_made id s
        (create_wake_command env.parse_ipv6 env.mac_of env.ip_of env.sends env.wol agents)
    else exec_made env now id agents by s (action_to_job req.action req.parameters)

abbrev pub toggle_or_other :
    Environment
    → ℕ
    → Text
    → List Text
    → Text
    → CommandRequest
    → CommandState
    → Option Toggle
    → CommandState × Made
toggle_or_other env now id agents by req s (some t) =
    toggle_made id s
      (create_network_toggle_command env.push t agents (record { desired = s.desired; rows = [] }))
toggle_or_other env now id agents by req s none = create_other_command env now id agents by req s

-- The switch on the action.
unfoldable pub create_command :
    Environment → ℕ → Text → List Text → Text → CommandRequest → CommandState → CommandState × Made
unfolding create_network_toggle_command create_other_command toggle_of
create_command env now id agents by req s =
    toggle_or_other env now id agents by req s (toggle_of req.action)
