-- ===== src/Tests/Hub.antt =====
-- The theorem on the waiters of the hub at concrete events.
use librawatch.Common.{Text, codes, text_eq, true, none, some, List, [], ◌∷◌, ◌++◌, ◌≡◌, refl}
use librawatch.Hub.Waiters.{
  WaiterEvent, requests, replies, receives, times_out, waiter_step, waiter_run, no_waiters,
}
use librawatch.Hub.Replies.{kill_request-answered}

abbrev pc : Text
pc = codes "pc-1"

abbrev other : Text
other = codes "pc-2"

-- The request for the other agent is the first to be answered.
abbrev meanwhile : List WaiterEvent
meanwhile = requests other true ∷ replies other (codes "gone") ∷ receives 1 ∷ []

kill_request-answered_example :
    (waiter_step (receives 0) (
      waiter_run (times_out 1 ∷ []) (
        waiter_step
          (replies pc (codes "killed"))
          (waiter_run meanwhile (waiter_step (requests pc true) no_waiters))))).answers
    ≡ (waiter_run (times_out 1 ∷ []) (
        waiter_step
          (replies pc (codes "killed"))
          (waiter_run meanwhile (waiter_step (requests pc true) no_waiters)))).answers
      ++ (0, some (codes "killed")) ∷ []
unfolding text_eq
kill_request-answered_example =
    kill_request-answered pc (codes "killed") [] meanwhile (times_out 1 ∷ []) no_waiters
      (unfold waiter_run in refl) (λ c. refl) (refl, (refl, (refl, tt))) (refl, tt)

-- Two requests for one agent at a time: the second takes the answer to the first, which gets none.
crossed_test :
    (waiter_run
      (requests pc true
        ∷ requests pc true
        ∷ replies pc (codes "first killed")
        ∷ receives 1
        ∷ replies pc (codes "second survived")
        ∷ times_out 0
        ∷ [])
      no_waiters).answers
    ≡ (1, some (codes "first killed")) ∷ (0, none) ∷ []
unfolding waiter_run
crossed_test = refl
