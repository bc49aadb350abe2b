-- ===== src/Deploy/Cancellation.antt =====
-- A cancelled row is final.
use librawatch.Common.{Text, true, List, All, filter, ◌≡◌}
use librawatch.Deploy.Model.{Status, Row, Db}
use librawatch.Deploy.Store.{is_key}
use librawatch.Deploy.Statements.{Op, exec, IsLawful}

-- The rows that a job has for an agent.
abbrev pub rows_of : Text → Text → Db → List Row
rows_of job agent db = filter (is_key job agent) db.results

abbrev pub IsCancelled : Row → Type 0
IsCancelled r = r.status ≡ Status.cancelled

-- Of the rows with that key, each is cancelled.
abbrev CancelledKey : Text → Text → List Row → Type 0
CancelledKey job agent = All (λ r. is_key job agent r ≡ true → IsCancelled r)

-- The tables after any further lawful statements.
pub data Later (db : Db) : Db → Type 0 where
  here : Later db db
  after : {d : Db} → Later db d → (op : Op) → IsLawful op d → Later db (exec op d)
