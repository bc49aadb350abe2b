-- ===== src/Deploy/Invariant.antt =====
-- What holds of the tables between any two statements, whichever goroutine sends them.
use mathlib.Core.Path.{subst₂}
use librawatch.Common.{
  ◌∙◌, ℕ, ◌≤◌, Text, text_eq, text_eq_iff, text_eq_sound, true, false, List, [], ◌∷◌, ◌++◌, All,
  All-append, map_where, count_where, count_where-append, ◌≡◌, refl, arith, Bool-cases, inl, inr,
  subst, sym, Option-cases,
}
use librawatch.Common.Int.{ℤ}
use librawatch.Deploy.Model.{Status, is_running, Job, Row, Db}
use librawatch.Deploy.Store.{
  ResultUpdate, is_key, update_deploy_result, insert_deploy_job, insert_deploy_result,
  update_deploy_job_status, update_job_status, cancel_deploy_job,
}
use librawatch.Deploy.Claim.{runs_on, claimed_row, claim, acquire_next_job}
use librawatch.Deploy.Selection.{acquire_next_job-Claims, acquire_next_job-none}
use librawatch.Deploy.Statements.{
  Op, exec, IsLawful, IsLeased, Inv, insert_job, insert_result, acquire, update, cancel, settle,
  mark,
}
use librawatch.Deploy.Counting.{
  count-updated_key, count-updated_running, updated-IsLeased, count-claimed_key,
  count-claimed_running, count-claimed_others, claimed-IsLeased, count-cancelled_key,
  count-cancelled_running, cancelled-IsLeased,
}

pub claim-Inv :
    (lease : ℕ) (job agent : Text) (db : Db)
    → Inv db
    → count_where (runs_on agent) db.results ≡ 0
    → Inv (claim lease job agent db)
unfolding claim
claim-Inv lease job agent db v idle = record {
  one_row = λ j a. omega (arith, count-claimed_key lease job agent j a db.results, v.one_row j a);
  one_running = λ a. elim (Bool-cases (text_eq agent a)) [
    | inl same ↦
        subst
          (λ b.
            count_where (runs_on b) (map_where (is_key job agent) (claimed_row lease) db.results)
            ≤ 1)
          (text_eq_sound agent a same)
          (omega (
            arith,
            count-claimed_running lease job agent agent db.results,
            v.one_row job agent,
            idle,
          ))
    | inr other ↦
        omega (arith, count-claimed_others lease job agent a db.results other, v.one_running a)
  ];
  leased = claimed-IsLeased lease job agent db.results v.leased;
}

acquire-Inv :
    (now lease : ℕ) (agent : Text) (db : Db) → Inv db → Inv (acquire_next_job now lease agent db).0
acquire-Inv now lease agent db v = elim (Option-cases (acquire_next_job now lease agent db).1) [
  | inl e ↦ subst Inv (sym (acquire_next_job-none now lease agent db e).0) v
  | inr ((j, attempt), e) ↦
      let c = acquire_next_job-Claims now lease agent db j attempt e in
      subst Inv (sym c.after) (claim-Inv lease c.row.job_id agent db v c.idle)
]

pub update-Inv :
    (now : ℕ) (u : ResultUpdate) (db : Db)
    → is_running u.status ≡ false
    → Inv db
    → Inv (update_deploy_result now u db).0
unfolding update_deploy_result
update-Inv now u db h v = record {
  one_row = λ j a. omega (arith, count-updated_key now u j a db.results, v.one_row j a);
  one_running = λ a. omega (arith, count-updated_running now u a db.results h, v.one_running a);
  leased = updated-IsLeased now u db.results h v.leased;
}

pub cancel-Inv : (id : Text) (db : Db) → Inv db → Inv (cancel_deploy_job id db)
unfolding cancel_deploy_job
cancel-Inv id db v = record {
  one_row = λ j a. omega (arith, count-cancelled_key id j a db.results, v.one_row j a);
  one_running = λ a. omega (arith, count-cancelled_running id a db.results, v.one_running a);
  leased = cancelled-IsLeased id db.results v.leased;
}

is_key_sound :
    (job agent : Text) (r : Row)
    → is_key job agent r ≡ true
    → (r.job_id ≡ job) × (r.agent_id ≡ agent)
unfolding is_key
is_key_sound job agent r h = ground (arith, text_eq_iff r.job_id job, text_eq_iff r.agent_id agent)

new_row-key :
    (r : Row) (job agent j a : Text) (rs : List Row)
    → r.job_id ≡ job
    → r.agent_id ≡ agent
    → count_where (is_key job agent) rs ≡ 0
    → count_where (is_key j a) rs ≤ 1
    → count_where (is_key j a) (rs ++ r ∷ []) ≤ 1
unfolding count_where
new_row-key r job agent j a rs p q fresh h = elim (Bool-cases (is_key j a r)) [
  | inl hit ↦
      let (e, f) = is_key_sound j a r hit in
      let none_yet : count_where (is_key j a) rs ≡ 0 =
        subst₂ (λ i b. count_where (is_key i b) rs ≡ 0) (sym p ∙ e) (sym q ∙ f) fresh in
      ground (arith, count_where-append (is_key j a) rs (r ∷ []))
  | inr miss ↦ ground (arith, count_where-append (is_key j a) rs (r ∷ []))
]

new_row-running :
    (agent : Text) (r : Row) (rs : List Row)
    → is_running r.status ≡ false
    → count_where (runs_on agent) rs ≤ 1
    → count_where (runs_on agent) (rs ++ r ∷ []) ≤ 1
unfolding count_where runs_on
new_row-running agent r rs h v = ground (arith, count_where-append (runs_on agent) rs (r ∷ []))

pub insert-Inv :
    (job agent : Text) (n : ℤ) (db : Db)
    → count_where (is_key job agent) db.results ≡ 0
    → Inv db
    → Inv (insert_deploy_result job agent Status.pending [] n db)
unfolding insert_deploy_result
insert-Inv job agent n db fresh v = record {
  one_row = λ j a. new_row-key _ job agent j a db.results refl refl fresh (v.one_row j a);
  one_running = λ a. new_row-running a _ db.results refl (v.one_running a);
  leased = All-append IsLeased db.results _ v.leased (refl, tt);
}

-- The invariant is about the results alone.
pub with_results : (db db' : Db) → db'.results ≡ db.results → Inv db → Inv db'
with_results db db' e v = record {
  one_row = λ j a. subst (λ rs. count_where (is_key j a) rs ≤ 1) (sym e) (v.one_row j a);
  one_running = λ a. subst (λ rs. count_where (runs_on a) rs ≤ 1) (sym e) (v.one_running a);
  leased = subst (All IsLeased) (sym e) v.leased;
}

pub results-update_job_status :
    (id : Text) (db : Db) → (update_job_status id db).results ≡ db.results
unfolding update_job_status
results-update_job_status id db = ground arith

pub settle-Inv : (id : Text) (db : Db) → Inv db → Inv (update_job_status id db)
settle-Inv id db v = with_results db _ (results-update_job_status id db) v

pub no_rows-Inv : (jobs : List Job) → Inv (record { jobs = jobs; results = [] })
unfolding count_where
no_rows-Inv jobs = record {
  one_row = λ j a. omega arith;
  one_running = λ a. omega arith;
  leased = tt;
}

-- Every lawful statement keeps the invariant.
pub exec-Inv : (op : Op) (db : Db) → IsLawful op db → Inv db → Inv (exec op db)
unfolding exec
exec-Inv (insert_job j) db h v = with_results db _ (unfold insert_deploy_job in refl) v
exec-Inv (insert_result job agent n) db h v = insert-Inv job agent n db h v
exec-Inv (acquire now lease agent) db h v = acquire-Inv now lease agent db v
exec-Inv (update now u) db h v = update-Inv now u db h v
exec-Inv (cancel id) db h v = cancel-Inv id db v
exec-Inv (settle id) db h v = settle-Inv id db v
exec-Inv (mark id s) db h v = with_results db _ (unfold update_deploy_job_status in refl) v

-- The tables that a sequence of lawful statements reaches from the empty ones.
pub data Reach : Db → Type 0 where
  empty : (db : Db) → db.results ≡ [] → Reach db
  next : {db : Db} → Reach db → (op : Op) → IsLawful op db → Reach (exec op db)

-- However the goroutines of the server interleave, an agent has at most one row running, a job
-- has at most one row for an agent, and a row has a lease exactly while it runs.
pub Reach-Inv : {db : Db} → Reach db → Inv db
Reach-Inv (empty db e) =
    with_results (record { jobs = db.jobs; results = [] }) db e (no_rows-Inv db.jobs)
Reach-Inv (next r op h) = exec-Inv op _ h (Reach-Inv r)
