-- ===== src/Agent/Acks.antt =====
-- The store of results that the server has not confirmed, agent/ack.go.
use librawatch.Common.{ℕ, Text, text_eq, filter, any, map, if◌then◌else◌, not, List, [], ◌∷◌, ◌++◌}
use librawatch.Deploy.Report.{Report}

pub record PendingResult : Type 0 where
  pub job_id : Text
  pub message : Report
  pub queued_at : ℕ

unfoldable pub persist_pending_result : ℕ → Text → Report → List PendingResult → List PendingResult
persist_pending_result now job msg store =
    filter (λ e. not (text_eq e.job_id job)) store
    ++ record { job_id = job; message = msg; queued_at = now } ∷ []

unfoldable pub clear_pending_result : Text → List PendingResult → List PendingResult
clear_pending_result job store =
    if any (λ e. text_eq e.job_id job) store
    then filter (λ e. not (text_eq e.job_id job)) store
    else store

-- The messages that replayPendingResults sends.
unfoldable pub replay_pending_results : List PendingResult → List Report
replay_pending_results store = map (λ e. e.message) store
