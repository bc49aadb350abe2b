-- ===== src/Command/Post.antt =====
-- handlePostCommand of server/commands.go, with InsertCommandRequest of server/db.go.
use librawatch.Common.{
  ℕ, Text, codes, text_eq, any, not, ◌||◌, ltb, if◌then◌else◌, Option, none, some, List, [], ◌∷◌,
  ◌++◌,
}
use librawatch.Deploy.Store.{count_pending_results_for_agent}
use librawatch.Deploy.Dispatch.{Server}
use librawatch.Command.Target.{resolve_command_targets}
use librawatch.Command.Create.{
  CommandAnswer, CommandRequest, CommandState, Environment, Made, accepted, bad_request,
  client_error, create_command, internal_error, makes, no_command_target, not_implemented,
  not_implemented_actions, other_error, valid_command_actions,
}

unfoldable pub queue_position : Server → List Text → ℕ → ℕ
unfolding count_pending_results_for_agent
queue_position server [] position = position
queue_position server (a ∷ agents) position =
    let n = count_pending_results_for_agent a server.db in
    queue_position server agents (if ltb position n then n else position)

unfoldable pub insert_command_request : ℕ → Text → CommandRequest → CommandState → CommandState
insert_command_request now id req s = record s {
  requests =
      s.requests
      ++ record {
        job_id = id;
        action = req.action;
        target = req.target;
        correlation_id = req.correlation_id;
        created_at = now;
      }
        ∷ [];
}

abbrev pub answer_made :
    ℕ → Text → CommandRequest → ℕ → CommandState × Made → CommandState × CommandAnswer
answer_made now id req position (s, client_error) = (s, bad_request)
answer_made now id req position (s, other_error) = (s, internal_error)
answer_made now id req position (s, makes status) =
    (insert_command_request now id req s, accepted id status position)

abbrev pub requested_by_or_api : Text → Text
requested_by_or_api by = if text_eq by [] then codes "api" else by

unfoldable pub post_to :
    Environment
    → ℕ
    → Text
    → CommandRequest
    → CommandState
    → Option (List Text)
    → CommandState × CommandAnswer
unfolding create_command queue_position insert_command_request text_eq
post_to env now id req s none = (s, no_command_target)
post_to env now id req s (some agents) =
    answer_made now id req (queue_position s.server agents 0)
      (create_command env now id agents (requested_by_or_api req.requested_by) req s)

unfoldable pub handle_post_command :
    Environment → ℕ → Text → CommandRequest → CommandState → CommandState × CommandAnswer
unfolding post_to resolve_command_targets any text_eq
handle_post_command env now id req s =
    if text_eq req.target [] || text_eq req.action []
    then (s, bad_request)
    else if not (any (text_eq req.action) valid_command_actions)
    then (s, bad_request)
    else if text_eq req.action (codes "unlock")
    then (s, bad_request)
    else if any (text_eq req.action) not_implemented_actions
    then (s, not_implemented)
    else post_to env now id req s (resolve_command_targets req.target s.agents)
