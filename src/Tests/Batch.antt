-- ===== src/Tests/Batch.antt =====
-- The theorems on the metrics batcher at concrete events.
use librawatch.Common.{ℕ, true, false, List, [], ◌∷◌, ◌≡◌, refl}
use librawatch.Batch.Batcher.{
  new_metrics_batcher, drain, BatchEvent, adds, receives, expires, batch_run,
}
use librawatch.Batch.Conservation.{flushed, accepted, drain-accepted}

abbrev arrivals : List (BatchEvent ℕ)
arrivals = adds 1 ∷ adds 2 ∷ receives true ∷ expires true ∷ adds 3 ∷ receives false ∷ []

arrivals_running : (batch_run arrivals new_metrics_batcher).stopped ≡ false
unfolding batch_run
arrivals_running = refl

drain-accepted_example :
    flushed (drain true (batch_run arrivals new_metrics_batcher)).flushes
    ≡ accepted arrivals new_metrics_batcher
drain-accepted_example = drain-accepted arrivals true arrivals_running

batch_run_test :
    flushed (drain true (batch_run arrivals new_metrics_batcher)).flushes ≡ 1 ∷ 2 ∷ 3 ∷ []
unfolding drain batch_run
batch_run_test = refl
