-- ===== src/Agent/Completed.antt =====
-- The store of finished jobs, agent/cmddedup.go. Times are seconds, and a store that cannot be
-- read is empty. sort.Slice leaves the order of equal times open: here it is that of the list.
use librawatch.Common.{
  ℕ, ◌-◌, Text, text_eq, length, drop, filter, find, if◌then◌else◌, Bool, not, ltb, leb, ◌==◌,
  Option, none, List, [], ◌∷◌, ◌++◌,
}
use mathlib.Core.Option
use librawatch.Deploy.Report.{Report}

pub record CompletedJob : Type 0 where
  pub job_id : Text
  pub result : Report
  pub at : ℕ

abbrev pub completed_jobs_max : ℕ
completed_jobs_max = 256

abbrev pub completed_jobs_ttl : ℕ
completed_jobs_ttl = 86400

unfoldable pub is_retained : ℕ → CompletedJob → Bool
is_retained now e = ltb (now - e.at) completed_jobs_ttl

unfoldable pub insert_by_time : CompletedJob → List CompletedJob → List CompletedJob
insert_by_time e [] = e ∷ []
insert_by_time e (x ∷ xs) = if leb e.at x.at then e ∷ x ∷ xs else x ∷ insert_by_time e xs

unfoldable pub sort_by_time : List CompletedJob → List CompletedJob
unfolding insert_by_time
sort_by_time [] = []
sort_by_time (e ∷ es) = insert_by_time e (sort_by_time es)

-- Over the limit the oldest entries go.
unfoldable pub keep_newest : List CompletedJob → List CompletedJob
unfolding sort_by_time
keep_newest kept =
    if ltb completed_jobs_max (length kept)
    then drop (length kept - completed_jobs_max) (sort_by_time kept)
    else kept

unfoldable pub prune_completed_jobs : ℕ → List CompletedJob → List CompletedJob
unfolding keep_newest is_retained
prune_completed_jobs now jobs = keep_newest (filter (is_retained now) jobs)

unfoldable pub record_completed_result : ℕ → Text → Report → List CompletedJob → List CompletedJob
unfolding prune_completed_jobs text_eq
record_completed_result now job result store =
    if text_eq job []
    then store
    else prune_completed_jobs now (
        filter (λ e. not (text_eq e.job_id job)) (prune_completed_jobs now store)
        ++ record { job_id = job; result = result; at = now } ∷ [])

-- The stored result, and the store, which is written back where pruning made it shorter.
unfoldable pub completed_job_result :
    ℕ → Text → List CompletedJob → Option Report × List CompletedJob
unfolding prune_completed_jobs text_eq
completed_job_result now job loaded =
    if text_eq job []
    then (none, loaded)
    else let kept = prune_completed_jobs now loaded in
      (
        Option.map (λ e. e.result) (find (λ e. text_eq e.job_id job) kept),
        if length kept == length loaded then loaded else kept,
      )
