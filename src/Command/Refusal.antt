-- ===== src/Command/Refusal.antt =====
-- What a request to the command API changes, refused or accepted.
use librawatch.Common.{
  ap, ℕ, Text, codes, text_eq, any, not, ◌&&◌, ◌||◌, if_rule, Option, none, some, is_some, List, [],
  ◌∷◌, ◌++◌, ◌≡◌, refl,
}
use librawatch.Common.Int.{ℤ}
use librawatch.Deploy.Model.{Job}
use librawatch.Deploy.Store.{get_deploy_job_by_id}
use librawatch.Deploy.Dispatch.{
  Server, Created, created, no_target_agents, insert_failed, create_resolved, resolve_targets,
  create_job,
}
use librawatch.Software.Uninstall.{validate_deploy_request}
use librawatch.Command.Action.{action_to_job}
use librawatch.Command.Target.{resolve_command_targets}
use librawatch.Wake.Request.{WakeAnswer, refuses, done, create_wake_command}
use librawatch.Command.Network.{Toggle, ToggleState, create_network_toggle_command}
use librawatch.Command.Create.{
  RequestRow, toggle_or_other, max_retry_or, command_job, DeployParams, CommandRequest,
  CommandState, Environment, CommandAnswer, bad_request, no_command_target, not_implemented,
  internal_error, accepted, Made, client_error, other_error, makes, valid_command_actions,
  not_implemented_actions, made_by, create_deploy_job, passthrough_until, read_expire_at,
  create_deploy_passthrough_command, toggle_made, wake_made, exec_made, toggle_of,
  create_other_command, create_command,
}
use librawatch.Command.Post.{
  queue_position, insert_command_request, answer_made, post_to, handle_post_command,
  requested_by_or_api,
}

-- A job that is not created leaves the server as it was.
abbrev IsAsBefore : Server → Server × Created → Type 0
IsAsBefore s (s', created job) = Unit
IsAsBefore s (s', no_target_agents) = s' ≡ s
IsAsBefore s (s', insert_failed) = s' ≡ s

create_resolved-IsAsBefore :
    (now : ℕ) (job : Job) (max_retry : ℤ) (targets : List Text) (s : Server)
    → IsAsBefore s (create_resolved now job max_retry targets s)
unfolding create_resolved
create_resolved-IsAsBefore now job max_retry [] s = refl
create_resolved-IsAsBefore now job max_retry (a ∷ rest) s =
    if_rule (IsAsBefore s) (is_some (get_deploy_job_by_id job.id s.db)) _ _ (λ _. refl) (λ _. tt)

-- An error leaves everything as it was, and a job leaves the requests.
abbrev IsMade : CommandState → CommandState × Made → Type 0
IsMade s (s', client_error) = s' ≡ s
IsMade s (s', other_error) = s' ≡ s
IsMade s (s', makes status) = s'.requests ≡ s.requests

made_by-IsMade :
    (s : CommandState) (r : Server × Created) → IsAsBefore s.server r → IsMade s (made_by s r)
made_by-IsMade s (server, created job) h = refl
made_by-IsMade s (server, no_target_agents) h = ap (λ x. record s { server = x }) h
made_by-IsMade s (server, insert_failed) h = ap (λ x. record s { server = x }) h

create_deploy_job-IsMade :
    (now : ℕ) (max_retry : ℤ) (job : Job) (s : CommandState)
    → IsMade s (create_deploy_job now max_retry job s)
unfolding create_deploy_job create_job
create_deploy_job-IsMade now max_retry job s = made_by-IsMade s _ (
    create_resolved-IsAsBefore now _ max_retry (resolve_targets s.server.agents job.targets)
      s.server)

module _ (env : Environment) (now : ℕ) (id : Text) (agents : List Text) (by : Text) where
  passthrough-IsMade :
      (p : DeployParams) (s : CommandState)
      → IsMade s (create_deploy_passthrough_command env now id agents by p s)
  unfolding create_deploy_passthrough_command
  passthrough-IsMade p s =
      if_rule (IsMade s)
        (text_eq p.type [] || (not (text_eq p.type (codes "install_ssh")) && text_eq p.payload []))
        _ _ (λ _. refl)
        (λ _.
          if_rule (IsMade s) (is_some (validate_deploy_request p.type p.payload p.args)) _ _
            (λ _. refl) (λ _. until (read_expire_at env.parse_time now p.expire_at)))
    where
      until :
          (o : Option (Option ℕ))
          → IsMade s (passthrough_until now env.default_max_retry id agents by p s o)
      until none = refl
      until (some expire_at) =
          create_deploy_job-IsMade now (max_retry_or env.default_max_retry p.max_retry)
            (command_job id p.type p.payload p.args agents p.priority expire_at by) s

  exec_made-IsMade :
      (s : CommandState) (o : Option Text) → IsMade s (exec_made env now id agents by s o)
  exec_made-IsMade s none = refl
  exec_made-IsMade s (some payload) =
      if_rule (IsMade s) (is_some (validate_deploy_request (codes "exec") payload [])) _ _
        (λ _. refl) (λ _. create_deploy_job-IsMade now _ _ s)

  wake_made-IsMade : (s : CommandState) (a : WakeAnswer) → IsMade s (wake_made id s a)
  wake_made-IsMade s (refuses r) = refl
  wake_made-IsMade s (done rows) = refl

  toggle_made-IsMade : (s : CommandState) (o : Option ToggleState) → IsMade s (toggle_made id s o)
  toggle_made-IsMade s none = refl
  toggle_made-IsMade s (some t) = refl

  create_other_command-IsMade :
      (req : CommandRequest) (s : CommandState)
      → IsMade s (create_other_command env now id agents by req s)
  unfolding create_other_command
  create_other_command-IsMade req s =
      if_rule (IsMade s) (text_eq req.action (codes "deploy")) _ _
        (λ _. passthrough-IsMade req.deploy_parameters s)
        (λ _.
          if_rule (IsMade s) (text_eq req.action (codes "wake")) _ _
            (λ _.
              wake_made-IsMade s
                (create_wake_command env.parse_ipv6 env.mac_of env.ip_of env.sends env.wol agents))
            (λ _. exec_made-IsMade s (action_to_job req.action req.parameters)))

  create_command-IsMade :
      (req : CommandRequest) (s : CommandState)
      → IsMade s (create_command env now id agents by req s)
  unfolding create_command
  create_command-IsMade req s = by_toggle (toggle_of req.action)
    where
      by_toggle : (o : Option Toggle) → IsMade s (toggle_or_other env now id agents by req s o)
      by_toggle (some t) = toggle_made-IsMade s (
          create_network_toggle_command env.push t agents
            (record { desired = s.desired; rows = [] }))
      by_toggle none = create_other_command-IsMade req s

abbrev pub request_row : ℕ → Text → CommandRequest → RequestRow
request_row now id req = record {
  job_id = id;
  action = req.action;
  target = req.target;
  correlation_id = req.correlation_id;
  created_at = now;
}

-- What an answer says of the state: an accepted request is recorded under the job's id, and any
-- other changed nothing.
abbrev pub Answers :
    ℕ → Text → CommandRequest → CommandState → CommandState × CommandAnswer → Type 0
Answers now id req s (s', accepted job_id status position) =
    (job_id ≡ id) × (s'.requests ≡ s.requests ++ request_row now id req ∷ [])
Answers now id req s (s', bad_request) = s' ≡ s
Answers now id req s (s', no_command_target) = s' ≡ s
Answers now id req s (s', not_implemented) = s' ≡ s
Answers now id req s (s', internal_error) = s' ≡ s

answer_made-Answers :
    (now : ℕ) (id : Text) (req : CommandRequest) (position : ℕ) (s : CommandState)
    (m : CommandState × Made)
    → IsMade s m
    → Answers now id req s (answer_made now id req position m)
answer_made-Answers now id req position s (s', client_error) h = h
answer_made-Answers now id req position s (s', other_error) h = h
answer_made-Answers now id req position s (s', makes status) h =
    (refl, (unfold insert_command_request in rw h refl))

-- Whatever the request, an answer that is an error leaves the queue, the network modes, the sent
-- packets and the recorded requests as they were, and an accepted request is recorded once, with
-- the id of its job, its action, its target and its correlation id.
pub handle_post_command-Answers :
    (env : Environment) (now : ℕ) (id : Text) (req : CommandRequest) (s : CommandState)
    → Answers now id req s (handle_post_command env now id req s)
unfolding handle_post_command
handle_post_command-Answers env now id req s =
    if_rule (Answers now id req s) (text_eq req.target [] || text_eq req.action []) _ _ (λ _. refl)
      (λ _.
        if_rule (Answers now id req s) (not (any (text_eq req.action) valid_command_actions)) _ _
          (λ _. refl)
          (λ _.
            if_rule (Answers now id req s) (text_eq req.action (codes "unlock")) _ _ (λ _. refl)
              (λ _.
                if_rule (Answers now id req s) (any (text_eq req.action) not_implemented_actions) _
                  _ (λ _. refl) (λ _. to (resolve_command_targets req.target s.agents)))))
  where
    to : (o : Option (List Text)) → Answers now id req s (post_to env now id req s o)
    to none = unfold post_to in refl
    to (some agents) =
        unfold post_to in
        answer_made-Answers now id req (queue_position s.server agents 0) s _
          (create_command-IsMade env now id agents (requested_by_or_api req.requested_by) req s)
