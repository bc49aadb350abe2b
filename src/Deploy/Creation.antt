-- ===== src/Deploy/Creation.antt =====
-- CreateJob keeps the invariant of the tables.
use librawatch.Common.{
  ℕ, Text, text_eq, text_eq_iff, false, List, [], ◌∷◌, All, any, count_where, count_where-append,
  ◌≡◌, refl, sym, subst, arith, Bool-cases, inl, inr, is_some,
}
use librawatch.Common.Int.{ℤ}
use librawatch.Deploy.Model.{Status, is_pending, Job, Row, Db}
use librawatch.Deploy.Store.{
  is_key, insert_deploy_job, insert_deploy_result, update_deploy_job_status, get_deploy_job_by_id,
  get_deploy_results_by_job_id, new_row,
}
use librawatch.Deploy.Invariant.{insert-Inv, with_results}
use librawatch.Deploy.Statements.{Inv}
use librawatch.Deploy.Dispatch.{
  Server, insert_for, insert_all, pump_all, mark_dispatched, create_resolved,
}
use librawatch.Deploy.Upkeep.{pump_agent-Inv}

-- The targets are distinct, and no row has the job yet.
abbrev pub Distinct : List Text → Type 0
Distinct [] = Unit
Distinct (a ∷ rest) = (any (λ b. text_eq b a) rest ≡ false) × Distinct rest

abbrev pub Unrowed : Text → List Text → List Row → Type 0
Unrowed job agents rs = All (λ a. count_where (is_key job a) rs ≡ 0) agents

insert_for-Inv :
    (job : Text) (n : ℤ) (a : Text) (s : Server)
    → count_where (is_key job a) s.db.results ≡ 0
    → Inv s.db
    → Inv (insert_for job n a s).db
unfolding insert_for
insert_for-Inv job n a s fresh v = elim (Bool-cases (any (λ b. text_eq b a) s.agents)) [
  | inl known ↦ rw known (insert-Inv job a n s.db fresh v)
  | inr unknown ↦ rw unknown v
]

other_agent :
    (job a b : Text) (n : ℤ) (db : Db)
    → text_eq b a ≡ false
    → count_where (is_key job b) db.results ≡ 0
    → count_where (is_key job b) (insert_deploy_result job a Status.pending [] n db).results ≡ 0
unfolding insert_deploy_result count_where is_key
other_agent job a b n db d c = ground (
  arith,
  text_eq_iff a b,
  text_eq_iff b a,
  count_where-append (is_key job b) db.results (new_row job a Status.pending [] n ∷ []),
)

insert_for-other :
    (job : Text) (n : ℤ) (a b : Text) (s : Server)
    → text_eq b a ≡ false
    → count_where (is_key job b) s.db.results ≡ 0
    → count_where (is_key job b) (insert_for job n a s).db.results ≡ 0
unfolding insert_for
insert_for-other job n a b s d c = elim (Bool-cases (any (λ x. text_eq x a) s.agents)) [
  | inl known ↦ rw known (other_agent job a b n s.db d c)
  | inr unknown ↦ rw unknown c
]

any-head :
    (a b : Text) (rest : List Text)
    → any (λ x. text_eq x a) (b ∷ rest) ≡ false
    → (text_eq b a ≡ false) × (any (λ x. text_eq x a) rest ≡ false)
unfolding any
any-head a b rest h = ground arith

insert_for-Unrowed :
    (job : Text) (n : ℤ) (a : Text) (rest : List Text) (s : Server)
    → any (λ b. text_eq b a) rest ≡ false
    → Unrowed job rest s.db.results
    → Unrowed job rest (insert_for job n a s).db.results
insert_for-Unrowed job n a [] s h u = tt
insert_for-Unrowed job n a (b ∷ rest) s h u =
    let (d, ds) = any-head a b rest h in
    (insert_for-other job n a b s d u.0, insert_for-Unrowed job n a rest s ds u.1)

insert_all-Inv :
    (job : Text) (n : ℤ) (agents : List Text) (s : Server)
    → Distinct agents
    → Unrowed job agents s.db.results
    → Inv s.db
    → Inv (insert_all job n agents s).db
unfolding insert_all
insert_all-Inv job n [] s d u v = v
insert_all-Inv job n (a ∷ rest) s d u v =
    insert_all-Inv job n rest (insert_for job n a s) d.1 (insert_for-Unrowed job n a rest s d.0 u.1)
      (insert_for-Inv job n a s u.0 v)

pump_all-Inv :
    (now : ℕ) (agents : List Text) (s : Server) → Inv s.db → Inv (pump_all now agents s).db
unfolding pump_all
pump_all-Inv now [] s v = v
pump_all-Inv now (a ∷ rest) s v = pump_all-Inv now rest _ (pump_agent-Inv now a s v)

mark_dispatched-Inv : (job : Job) (s : Server) → Inv s.db → Inv (mark_dispatched job s).0.db
unfolding mark_dispatched
mark_dispatched-Inv job s v =
    elim (Bool-cases (any (λ r. is_pending r.status) (get_deploy_results_by_job_id job.id s.db))) [
      | inl some_wait ↦ rw some_wait v
      | inr all_sent ↦ rw all_sent (with_results s.db _ (unfold update_deploy_job_status in refl) v)
    ]

results-insert_deploy_job : (job : Job) (db : Db) → (insert_deploy_job job db).results ≡ db.results
unfolding insert_deploy_job
results-insert_deploy_job job db = refl

pub create_resolved-Inv :
    (now : ℕ) (job : Job) (n : ℤ) (agents : List Text) (s : Server)
    → Distinct agents
    → Unrowed job.id agents s.db.results
    → Inv s.db
    → Inv (create_resolved now job n agents s).0.db
unfolding create_resolved
create_resolved-Inv now job n [] s d u v = v
create_resolved-Inv now job n (a ∷ rest) s d u v =
    elim (Bool-cases (is_some (get_deploy_job_by_id job.id s.db))) [
      | inl clash ↦ rw clash v
      | inr new ↦ rw new (
          mark_dispatched-Inv job _ (
            pump_all-Inv now (a ∷ rest) _ (
              insert_all-Inv job.id n (a ∷ rest) (record s { db = insert_deploy_job job s.db }) d
                (subst (Unrowed job.id (a ∷ rest)) (sym (results-insert_deploy_job job s.db)) u)
                (with_results s.db _ (results-insert_deploy_job job s.db) v))))
    ]
