-- ===== src/Deploy/Selection.antt =====
-- What AcquireNextJob hands out.
use mathlib.Core.List.{Memᴰ}
use mathlib.Core.Option.{some-injective}
use mathlib.Core.Path.{subst₂}
use librawatch.Common.Int.{◌≤ℤ◌}
use librawatch.Common.{
  ◌≤◌, All-map, subst, Bool, map, map_where, ◌&&◌, if◌then◌else◌, ◌∙◌, ℕ, ◌<◌, Text, text_eq,
  text_eq_sound, true, false, Option, none, some, List, [], ◌∷◌, All, count_where, ◌≡◌, refl, sym,
  ap, ◌⊎◌, inl, inr, arith, Bool-cases, find-passes, ltb, ltb→lt,
}
use librawatch.Deploy.Model.{Status, Job, Row, Db}
use librawatch.Deploy.Store.{get_deploy_job_by_id, is_key}
use librawatch.Deploy.Claim.{
  Candidate, cons_some, runs_on, candidate, candidates, precedes, first, claim, claimed_row,
  claim_first, acquire_next_job,
}
use librawatch.Deploy.Order.{first-IsFirst}
use librawatch.Deploy.Eligible.{
  IsEligible, eligible-candidate, candidates_sound, candidates_complete,
}

-- `j` has a higher priority than `i`, or the same and is not younger.
abbrev pub IsNoWorse : Job → Job → Type 0
IsNoWorse j i =
    (i.priority ≤ℤ j.priority) × (j.priority ≤ℤ i.priority → j.created_at ≤ i.created_at)

precedes-IsNoWorse : (i j : Job) → precedes i j ≡ false → IsNoWorse j i
unfolding precedes
precedes-IsNoWorse i j h = ground arith

-- The row of that job and agent as a claim leaves it, and any other row as it was.
abbrev pub marked_row : ℕ → Text → Text → Row → Row
marked_row lease job agent r =
    if text_eq r.job_id job && text_eq r.agent_id agent
    then record r { status = Status.running; lease_until = some lease }
    else r

map_where-map :
    (p : Row → Bool) (f : Row → Row) (rs : List Row)
    → map_where p f rs ≡ map (λ r. if p r then f r else r) rs
unfolding map_where
map_where-map p f [] = refl
map_where-map p f (r ∷ rs) = ap (λ xs. (if p r then f r else r) ∷ xs) (map_where-map p f rs)

claim-marked :
    (lease : ℕ) (job agent : Text) (db : Db)
    → (claim lease job agent db).results ≡ map (marked_row lease job agent) db.results
unfolding claim is_key claimed_row
claim-marked lease job agent db = map_where-map (is_key job agent) (claimed_row lease) db.results

claim-jobs : (lease : ℕ) (job agent : Text) (db : Db) → (claim lease job agent db).jobs ≡ db.jobs
unfolding claim
claim-jobs lease job agent db = refl

pub record Claims (now lease : ℕ) (agent : Text) (db db' : Db) (j : Job) (attempt : ℕ)
    : Type 0 where
  pub row : Row
  pub stored : Memᴰ row db.results
  pub eligible : IsEligible now agent db row j
  pub attempted : attempt ≡ row.retry_count
  pub idle : count_where (runs_on agent) db.results ≡ 0
  pub best : All (λ r. (i : Job) → IsEligible now agent db r i → IsNoWorse j i) db.results
  pub marked : db'.results ≡ map (marked_row lease row.job_id agent) db.results
  pub same_jobs : db'.jobs ≡ db.jobs
  pub after : db' ≡ claim lease row.job_id agent db

pub job_id_of :
    (r : Row) (j : Job) (db : Db) → get_deploy_job_by_id r.job_id db ≡ some j → j.id ≡ r.job_id
unfolding get_deploy_job_by_id
job_id_of r j db h = text_eq_sound _ _ (find-passes _ db.jobs h)

get_job-claim :
    (lease : ℕ) (agent : Text) (db : Db) (c : Candidate)
    → c.job.id ≡ c.row.job_id
    → get_deploy_job_by_id c.row.job_id db ≡ some c.job
    → get_deploy_job_by_id c.job.id (claim lease c.job.id agent db) ≡ some c.job
unfolding get_deploy_job_by_id claim
get_job-claim lease agent db c same h =
    subst (λ i. get_deploy_job_by_id i db ≡ some c.job) (sym same) h

ltb-false : (n : ℕ) → ltb 0 n ≡ false → n ≡ 0
ltb-false n h = ground arith

acquire_idle :
    (now lease : ℕ) (agent : Text) (db : Db)
    → ltb 0 (count_where (runs_on agent) db.results) ≡ false
    → acquire_next_job now lease agent db
      ≡ claim_first lease agent db (first (candidates now agent db db.results))
unfolding acquire_next_job
acquire_idle now lease agent db h = rw h

claim_first-Claims :
    (now lease : ℕ) (agent : Text) (db : Db) (o : Option Candidate) (j : Job) (attempt : ℕ)
    → first (candidates now agent db db.results) ≡ o
    → count_where (runs_on agent) db.results ≡ 0
    → (claim_first lease agent db o).1 ≡ some (j, attempt)
    → Claims now lease agent db (claim_first lease agent db o).0 j attempt
unfolding claim_first
claim_first-Claims now lease agent db none j attempt e idle h = cc
claim_first-Claims now lease agent db (some c) j attempt e idle h =
    let (m, best) = first-IsFirst (candidates now agent db db.results) c e in
    let (stored, l) = candidates_sound now agent db db.results c m in
    let same = job_id_of c.row c.job db l.joins in
    let found : get_deploy_job_by_id c.job.id (claim lease c.job.id agent db) ≡ some c.job =
      get_job-claim lease agent db c same l.joins in
    let h' = rw found at h in
    let pair = some-injective _ _ h' in
    subst₂ (Claims now lease agent db (claim lease c.job.id agent db))
      (ap (λ (p : Job × ℕ). p.0) pair) (ap (λ (p : Job × ℕ). p.1) pair)
      (record {
        row = c.row;
        stored = stored;
        eligible = l;
        attempted = refl;
        idle = idle;
        best =
            All-map _ (λ r. (i : Job) → IsEligible now agent db r i → IsNoWorse c.job i)
              (λ r f i e. precedes-IsNoWorse i c.job (f i e)) db.results
              (candidates_complete now agent db db.results c.job best);
        marked =
            claim-marked lease c.job.id agent db
            ∙ ap (λ i. map (marked_row lease i agent) db.results) same;
        same_jobs = claim-jobs lease c.job.id agent db;
        after = ap (λ i. claim lease i agent db) same;
      })

pub acquire_next_job-Claims :
    (now lease : ℕ) (agent : Text) (db : Db) (j : Job) (attempt : ℕ)
    → (acquire_next_job now lease agent db).1 ≡ some (j, attempt)
    → Claims now lease agent db (acquire_next_job now lease agent db).0 j attempt
unfolding acquire_next_job
acquire_next_job-Claims now lease agent db j attempt h =
    elim (Bool-cases (ltb 0 (count_where (runs_on agent) db.results))) [
      | inl busy ↦ cc (rw (busy, acquire_next_job) at h)
      | inr free ↦
          subst (λ r. Claims now lease agent db r.0 j attempt)
            (sym (acquire_idle now lease agent db free))
            (claim_first-Claims now lease agent db (first (candidates now agent db db.results)) j
              attempt refl (ltb-false _ free)
              (subst (λ (r : Db × Option (Job × ℕ)). r.1 ≡ some (j, attempt))
                (acquire_idle now lease agent db free) h))
    ]

first_empty : (cs : List Candidate) → first cs ≡ none → cs ≡ []
unfolding first
first_empty [] h = refl
first_empty (c ∷ cs) h = cc

-- No row of the agent could be handed out.
abbrev pub IsDrained : ℕ → Text → Db → List Row → Type 0
IsDrained now agent db rs = All (λ r. (i : Job) → ¬ IsEligible now agent db r i) rs

candidates-IsDrained :
    (now : ℕ) (agent : Text) (db : Db) (rs : List Row)
    → candidates now agent db rs ≡ []
    → IsDrained now agent db rs
unfolding candidates
candidates-IsDrained now agent db [] h = tt
candidates-IsDrained now agent db (r ∷ rs) h =
    cases (candidate now agent db r) refl h (candidates-IsDrained now agent db rs)
  where
    cases :
        (o : Option Candidate)
        → candidate now agent db r ≡ o
        → cons_some o (candidates now agent db rs) ≡ []
        → (candidates now agent db rs ≡ [] → IsDrained now agent db rs)
        → IsDrained now agent db (r ∷ rs)
    cases none e h ih = (λ i l. cc (e, eligible-candidate now agent db r i l), ih h)
    cases (some c) e h ih = cc

claim_first-none :
    (now lease : ℕ) (agent : Text) (db : Db) (o : Option Candidate)
    → first (candidates now agent db db.results) ≡ o
    → (claim_first lease agent db o).1 ≡ none
    → ((claim_first lease agent db o).0 ≡ db) × IsDrained now agent db db.results
unfolding claim_first
claim_first-none now lease agent db none e h =
    (refl, candidates-IsDrained now agent db db.results (first_empty _ e))
claim_first-none now lease agent db (some c) e h =
    let (m, _) = first-IsFirst (candidates now agent db db.results) c e in
    let l = (candidates_sound now agent db db.results c m).1 in
    let same = job_id_of c.row c.job db l.joins in
    let found : get_deploy_job_by_id c.job.id (claim lease c.job.id agent db) ≡ some c.job =
      get_job-claim lease agent db c same l.joins in
    cc (rw found at h)

-- A claim that hands out nothing changes nothing, and happens only when the agent has a row
-- running or no row that could be handed out.
pub acquire_next_job-none :
    (now lease : ℕ) (agent : Text) (db : Db)
    → (acquire_next_job now lease agent db).1 ≡ none
    → ((acquire_next_job now lease agent db).0 ≡ db)
      × ((0 < count_where (runs_on agent) db.results) ⊎ IsDrained now agent db db.results)
unfolding acquire_next_job
acquire_next_job-none now lease agent db h =
    elim (Bool-cases (ltb 0 (count_where (runs_on agent) db.results))) [
      | inl busy ↦ (
        ap (λ (r : Db × Option (Job × ℕ)). r.0) (acquire_busy now lease agent db busy),
        inl (ltb→lt _ _ busy),
      )
      | inr free ↦
          let e = acquire_idle now lease agent db free in
          let (same, drained) =
            claim_first-none now lease agent db (first (candidates now agent db db.results)) refl
              (subst (λ (r : Db × Option (Job × ℕ)). r.1 ≡ none) e h) in
          (ap (λ (r : Db × Option (Job × ℕ)). r.0) e ∙ same, inr drained)
    ]
  where
    acquire_busy :
        (now lease : ℕ) (agent : Text) (db : Db)
        → ltb 0 (count_where (runs_on agent) db.results) ≡ true
        → acquire_next_job now lease agent db ≡ (db, none)
    acquire_busy now lease agent db h = rw h
