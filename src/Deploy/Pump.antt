-- ===== src/Deploy/Pump.antt =====
-- A rule for what PumpAgent does to the tables.
use librawatch.Common.{
  ℕ, ◌+◌, ◌*◌, Text, Bool, true, false, Option, none, some, [], ◌≡◌, refl, sym, subst, ap, ◌∙◌,
}
use librawatch.Deploy.Model.{Status, Job, Db}
use librawatch.Deploy.Store.{update_deploy_result}
use librawatch.Deploy.Claim.{acquire_next_job}
use librawatch.Deploy.Selection.{Claims, acquire_next_job-Claims, acquire_next_job-none}
use librawatch.Deploy.Dispatch.{
  Server, dispatch, send_to_agent, transition, apply_update, sent_or_released, deliver, pump_agent,
}

-- The tables after a claim was released.
abbrev pub released : ℕ → Text → Job → Db → Db
released now agent j db =
    (update_deploy_result now (transition j.id agent Status.pending [] none) db).0

pub db-dispatch :
    (agent : Text) (j : Job) (attempt : ℕ) (s : Server) → (dispatch agent j attempt s).0.db ≡ s.db
unfolding dispatch send_to_agent
db-dispatch agent j attempt s = refl

module _ {ℓ} (P : Db → Type ℓ) (now : ℕ) (agent : Text) where
  sent_or_released-db :
      (j : Job) (r : Server × Bool)
      → P r.0.db
      → P (released now agent j r.0.db)
      → P (sent_or_released now agent j r).0.db
  unfolding sent_or_released
  sent_or_released-db j (s, true) p q = p
  sent_or_released-db j (s, false) p q = unfold apply_update in q

  deliver-db :
      (lease : ℕ) (s : Server) (db : Db) (got : Option (Job × ℕ))
      → acquire_next_job now lease agent s.db ≡ (db, got)
      → P s.db
      → ((db' : Db) (j : Job) (attempt : ℕ)
          → Claims now lease agent s.db db' j attempt
          → P db' × P (released now agent j db'))
      → P (deliver now agent (record s { db = db }) got).0.db
  unfolding deliver
  deliver-db lease s db none e p claims =
      let got = ap (λ (r : Db × Option (Job × ℕ)). r.1) e in
      let stays = (acquire_next_job-none now lease agent s.db got).0 in
      subst P (sym stays ∙ ap (λ (r : Db × Option (Job × ℕ)). r.0) e) p
  deliver-db lease s db (some (j, attempt)) e p claims =
      let got = ap (λ (r : Db × Option (Job × ℕ)). r.1) e in
      let db_is = ap (λ (r : Db × Option (Job × ℕ)). r.0) e in
      let c =
        subst (λ x. Claims now lease agent s.db x j attempt) db_is
          (acquire_next_job-Claims now lease agent s.db j attempt got) in
      let (claimed, free) = claims db j attempt c in
      let same = sym (db-dispatch agent j attempt (record s { db = db })) in
      sent_or_released-db j (dispatch agent j attempt (record s { db = db })) (subst P same claimed)
        (subst (λ x. P (released now agent j x)) same free)

  -- What holds of the tables before, after a claim and after a released claim holds after.
  pub pump_agent_rule :
      (s : Server)
      → P s.db
      → ((db' : Db) (j : Job) (attempt : ℕ)
          → Claims now (now + s.lease_minutes * 60) agent s.db db' j attempt
          → P db' × P (released now agent j db'))
      → P (pump_agent now agent s).0.db
  unfolding pump_agent
  pump_agent_rule s p claims = deliver-db (now + s.lease_minutes * 60) s _ _ refl p claims
