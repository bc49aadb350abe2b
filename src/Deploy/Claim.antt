-- ===== src/Deploy/Claim.antt =====
-- AcquireNextJob of server/db.go. The query joins each row with the one job of its primary
-- key; of rows that the ORDER BY does not tell apart the first inserted is taken.
use mathlib.Core.Option
use librawatch.Common.{
  ℕ, Text, text_eq, if◌then◌else◌, Bool, true, not, ◌&&◌, ◌||◌, ltb, Option, none, some, List, [],
  ◌∷◌, map_where, count_where,
}
use librawatch.Common.Int.{ltb_ℤ}
use librawatch.Deploy.Model.{running, is_running, is_pending, Job, Row, Db}
use librawatch.Deploy.Store.{is_key, get_deploy_job_by_id}

pub record Candidate : Type 0 where
  pub job : Job
  pub row : Row

-- r.agent_id = ? AND r.status = 'running'
unfoldable pub runs_on : Text → Row → Bool
runs_on agent r = text_eq r.agent_id agent && is_running r.status

-- r.agent_id = ? AND r.status = 'pending'
unfoldable pub waits_on : Text → Row → Bool
waits_on agent r = text_eq r.agent_id agent && is_pending r.status

-- j.expire_at IS NULL OR j.expire_at > ?
unfoldable pub is_live : ℕ → Option ℕ → Bool
is_live now none = true
is_live now (some t) = ltb now t

unfoldable pub joined : ℕ → Row → Option Job → Option Candidate
unfolding is_live
joined now r none = none
joined now r (some j) = if is_live now j.expire_at then some (record { job = j; row = r }) else none

unfoldable pub candidate : ℕ → Text → Db → Row → Option Candidate
unfolding joined waits_on
candidate now agent db r =
    if waits_on agent r then joined now r (get_deploy_job_by_id r.job_id db) else none

abbrev pub cons_some {ℓ} : {A : Type ℓ} → Option A → List A → List A
cons_some none xs = xs
cons_some (some x) xs = x ∷ xs

unfoldable pub candidates : ℕ → Text → Db → List Row → List Candidate
unfolding candidate
candidates now agent db [] = []
candidates now agent db (r ∷ rs) = cons_some (candidate now agent db r) (candidates now agent db rs)

-- ORDER BY j.priority DESC, j.created_at ASC
unfoldable pub precedes : Job → Job → Bool
precedes i j =
    ltb_ℤ j.priority i.priority
    || (not (ltb_ℤ i.priority j.priority) && ltb i.created_at j.created_at)

unfoldable pub better : Candidate → Option Candidate → Candidate
unfolding precedes
better c none = c
better c (some d) = if precedes d.job c.job then d else c

-- LIMIT 1
unfoldable pub first : List Candidate → Option Candidate
unfolding better
first [] = none
first (c ∷ cs) = some (better c (first cs))

unfoldable pub claimed_row : ℕ → Row → Row
claimed_row lease r = record r { status = running; lease_until = some lease }

unfoldable pub claim : ℕ → Text → Text → Db → Db
unfolding is_key claimed_row
claim lease job agent db = record db {
  results = map_where (is_key job agent) (claimed_row lease) db.results;
}

unfoldable pub claim_first : ℕ → Text → Db → Option Candidate → Db × Option (Job × ℕ)
unfolding claim get_deploy_job_by_id
claim_first lease agent db none = (db, none)
claim_first lease agent db (some c) =
    let db' = claim lease c.job.id agent db in
    (db', Option.map (λ j. (j, c.row.retry_count)) (get_deploy_job_by_id c.job.id db'))

-- The tables after the transaction, and the job with its attempt.
unfoldable pub acquire_next_job : ℕ → ℕ → Text → Db → Db × Option (Job × ℕ)
unfolding claim_first runs_on candidates first
acquire_next_job now lease agent db =
    if ltb 0 (count_where (runs_on agent) db.results)
    then (db, none)
    else claim_first lease agent db (first (candidates now agent db db.results))
