-- ===== src/Tests/DeepFreeze.antt =====
-- The theorem on Deep Freeze at a concrete query.
use librawatch.Common.{Text, codes, ℕ, ◌+◌, true, false, none, some, List, [], ◌∷◌, ◌≡◌, refl}
use librawatch.Common.Int.{pos}
use librawatch.Deploy.Model.{Status, other, Row, parse_status}
use librawatch.Deploy.Store.{new_row}
use librawatch.Deploy.Report.{truncated}
use librawatch.DeepFreeze.Endpoint.{DfcRun, exits, handle_deep_freeze}
use librawatch.DeepFreeze.Request.{Poll, poll_deep_freeze_result, first_answer, is_answer}
use librawatch.DeepFreeze.Answer.{Holds, poll-handle_deep_freeze}

-- Each run adds one to the count.
abbrev dfc : List Text → ℕ → DfcRun × ℕ
dfc args n = (exits 1 (codes " frozen\n"), n + 1)

abbrev row : Status → Text → Row
row status output = new_row (codes "j1") (codes "pc-1") status output (pos 3)

abbrev waiting : Poll
waiting = record { rows = some (row Status.running [] ∷ []); cancelled = false }

abbrev answered : Row
answered = row (other (codes "ok")) (codes "FROZEN")

answered-Holds :
    Holds (codes "pc-1") (handle_deep_freeze dfc true (codes "query_df") [] 0).0 answered
unfolding handle_deep_freeze
answered-Holds = record {
  is_own = refl;
  has_status = (unfold parse_status in refl);
  has_output = (unfold truncated in refl);
}

poll-handle_deep_freeze_example :
    (poll_deep_freeze_result (codes "pc-1") (
      waiting
      ∷ record { rows = none; cancelled = false }
      ∷ record { rows = some (answered ∷ []); cancelled = true }
      ∷ [])).status
    ≡ codes "frozen"
poll-handle_deep_freeze_example =
    poll-handle_deep_freeze dfc 0 [] (codes "pc-1")
      (waiting ∷ record { rows = none; cancelled = false } ∷ []) [] [] [] answered true
      answered-Holds (((unfold first_answer is_answer in refl), refl), ((refl, refl), tt)) tt

thaw_test : (handle_deep_freeze dfc true (codes "thaw") (codes "pw") 0).1 ≡ 2
unfolding handle_deep_freeze
thaw_test = refl
