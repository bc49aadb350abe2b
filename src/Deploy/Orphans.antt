-- ===== src/Deploy/Orphans.antt =====
-- A job whose targets are all unknown.
use librawatch.Common.{
  ℕ, ◌+◌, ◌*◌, Text, codes, text_eq, false, if◌then◌else◌, none, List, [], ◌∷◌, All, All-map,
  All-map_where, inl, any, filter, ◌≢◌, ◌≡◌, refl, sym, subst, ap, arith,
}
use librawatch.Common.Int.{ℤ}
use librawatch.Deploy.Model.{JobStatus, Job, Row, Db}
use librawatch.Deploy.Store.{
  ResultUpdate, updates, updated, is_key, update_deploy_result, insert_deploy_job,
  get_deploy_job_by_id, get_deploy_results_by_job_id, update_deploy_job_status,
}
use librawatch.Deploy.Claim.{claimed_row, claim}
use librawatch.Deploy.Dispatch.{
  Server, created, insert_for, insert_all, pump_all, mark_dispatched, create_resolved, create_job,
  resolve_targets,
}
use librawatch.Deploy.Report.{Report, report_update}
use librawatch.Deploy.Fencing.{Refuses, update-Refuses}
use librawatch.Deploy.Pump.{pump_agent_rule}

-- No row is of job `d`.
abbrev pub NoRows : Text → List Row → Type 0
NoRows d = All (λ r. text_eq r.job_id d ≡ false)

update-NoRows :
    (now : ℕ) (d : Text) (u : ResultUpdate) (db : Db)
    → NoRows d db.results
    → NoRows d (update_deploy_result now u db).0.results
unfolding update_deploy_result
update-NoRows now d u db = All-map_where _ _ (updates u) (updated now u) keep db.results
  where
    keep :
        (r : Row)
        → text_eq r.job_id d ≡ false
        → text_eq (if updates u r then updated now u r else r).job_id d ≡ false
    keep r h = unfold updated in ground arith

claim-NoRows :
    (d : Text) (lease : ℕ) (j agent : Text) (db : Db)
    → NoRows d db.results
    → NoRows d (claim lease j agent db).results
unfolding claim
claim-NoRows d lease j agent db =
    All-map_where _ _ (is_key j agent) (claimed_row lease) keep db.results
  where
    keep :
        (r : Row)
        → text_eq r.job_id d ≡ false
        → text_eq (if is_key j agent r then claimed_row lease r else r).job_id d ≡ false
    keep r h = unfold claimed_row in ground arith

pump_all-NoRows :
    (now : ℕ) (d : Text) (agents : List Text) (s : Server)
    → NoRows d s.db.results
    → NoRows d (pump_all now agents s).db.results
unfolding pump_all
pump_all-NoRows now d [] s h = h
pump_all-NoRows now d (a ∷ rest) s h = pump_all-NoRows now d rest _ (
    pump_agent_rule (λ db. NoRows d db.results) now a s h
      λ db' j attempt c.
        let claimed =
          subst (λ (x : Db). NoRows d x.results) (sym c.after)
            (claim-NoRows d (now + s.lease_minutes * 60) c.row.job_id a s.db h) in
        (claimed, update-NoRows now d _ db' claimed))

-- The agents that the table does not know.
abbrev pub Unknown : List Text → List Text → Type 0
Unknown agents = All (λ a. any (λ b. text_eq b a) agents ≡ false)

insert_all-Unknown :
    (job : Text) (n : ℤ) (targets : List Text) (s : Server)
    → Unknown s.agents targets
    → insert_all job n targets s ≡ s
unfolding insert_all insert_for
insert_all-Unknown job n [] s h = refl
insert_all-Unknown job n (a ∷ rest) s h = rw h.0 (insert_all-Unknown job n rest s h.1)

NoRows-of : (d : Text) (rs : List Row) → NoRows d rs → filter (λ r. text_eq r.job_id d) rs ≡ []
unfolding filter
NoRows-of d [] h = refl
NoRows-of d (r ∷ rs) h = ground (arith, NoRows-of d rs)

mark_dispatched-NoRows :
    (job : Job) (s : Server)
    → NoRows job.id s.db.results
    → ((mark_dispatched job s).1 ≡ record job { status = JobStatus.dispatched })
      × NoRows job.id (mark_dispatched job s).0.db.results
unfolding mark_dispatched get_deploy_results_by_job_id any update_deploy_job_status
mark_dispatched-NoRows job s h = rw (NoRows-of job.id s.db.results h) (refl, h)

create_resolved-Unknown :
    (now : ℕ) (job : Job) (n : ℤ) (targets : List Text) (s : Server)
    → targets ≢ []
    → Unknown s.agents targets
    → get_deploy_job_by_id job.id s.db ≡ none
    → NoRows job.id s.db.results
    → ((create_resolved now job n targets s).1
        ≡ created (record job { status = JobStatus.dispatched }))
      × NoRows job.id (create_resolved now job n targets s).0.db.results
unfolding create_resolved
create_resolved-Unknown now job n [] s some_target unknown new h = absurd (some_target refl)
create_resolved-Unknown now job n (a ∷ rest) s some_target unknown new h =
    let s1 : Server = record s { db = insert_deploy_job job s.db } in
    let same = insert_all-Unknown job.id n (a ∷ rest) s1 unknown in
    let h1 : NoRows job.id s1.db.results = unfold insert_deploy_job in h in
    let (e, g) =
      mark_dispatched-NoRows job (pump_all now (a ∷ rest) s1)
        (pump_all-NoRows now job.id (a ∷ rest) s1 h1) in
    rw (new, same) (ap created e, g)

NoRows-Refuses :
    (d : Text) (msg : Report) (rs : List Row)
    → msg.job_id ≡ d
    → NoRows d rs
    → All (Refuses msg.job_id msg.agent_id msg.attempt) rs
NoRows-Refuses d msg rs e =
    All-map (λ r. text_eq r.job_id d ≡ false) _ (λ r h. inl (refused r h)) rs
  where
    refused : (r : Row) → text_eq r.job_id d ≡ false → is_key msg.job_id msg.agent_id r ≡ false
    refused r h = unfold is_key in rw (e, h) refl

-- CreateJob with a new id, for a list of targets that is not empty, does not ask for all agents and
-- has no agent that the server knows, reports a dispatched job that has no row: and no result that
-- an agent reports for it reaches a row or changes the tables.
pub create_job-Unknown :
    (now : ℕ) (job : Job) (n : ℤ) (s : Server)
    → any (λ t. text_eq t (codes "*")) job.targets ≡ false
    → job.targets ≢ []
    → Unknown s.agents job.targets
    → get_deploy_job_by_id job.id s.db ≡ none
    → NoRows job.id s.db.results
    → ((create_job now job n s).1
        ≡ created (record job { status = JobStatus.dispatched; created_at = now }))
      × NoRows job.id (create_job now job n s).0.db.results
      × ((later : ℕ) (msg : Report)
          → msg.job_id ≡ job.id
          → let db = (create_job now job n s).0.db in
            update_deploy_result later (report_update msg) db ≡ (db, 0))
create_job-Unknown now job n s plain some_target unknown new h = (
  made.0,
  made.1,
  λ later msg e.
      unfold report_update in
      update-Refuses later (report_update msg) _ (NoRows-Refuses job.id msg _ e made.1),
)
  where
    made :
        ((create_job now job n s).1
          ≡ created (record job { status = JobStatus.dispatched; created_at = now }))
        × NoRows job.id (create_job now job n s).0.db.results
    made =
        unfold create_job resolve_targets in
        rw plain (
          create_resolved-Unknown now (record job { status = JobStatus.pending; created_at = now })
            n job.targets s some_target unknown new h)
