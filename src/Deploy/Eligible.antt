-- ===== src/Deploy/Eligible.antt =====
-- Which rows AcquireNextJob takes for candidates.
use mathlib.Core.List.{Memᴰ}
use mathlib.Core.Option.{some-injective}
use librawatch.Common.{
  subst, ◌∙◌, ℕ, Text, true, false, Option, none, some, List, [], ◌∷◌, All, ◌≡◌, refl, sym, ap, inl,
  inr, arith, Bool-cases,
}
use librawatch.Deploy.Model.{Job, Row, Db}
use librawatch.Deploy.Store.{get_deploy_job_by_id}
use librawatch.Deploy.Claim.{
  Candidate, cons_some, waits_on, is_live, joined, candidate, candidates, precedes,
}
use librawatch.Deploy.Order.{IsFirst}

-- A row of the table that the query would return: it waits on the agent, and its job has not
-- expired.
pub record IsEligible (now : ℕ) (agent : Text) (db : Db) (r : Row) (j : Job) : Type 0 where
  pub waits : waits_on agent r ≡ true
  pub joins : get_deploy_job_by_id r.job_id db ≡ some j
  pub lives : is_live now j.expire_at ≡ true

joined-some :
    (now : ℕ) (r : Row) (o : Option Job) (c : Candidate)
    → joined now r o ≡ some c
    → (c.row ≡ r) × (o ≡ some c.job) × (is_live now c.job.expire_at ≡ true)
unfolding joined
joined-some now r none c h = cc
joined-some now r (some j) c h = ground arith

candidate-IsEligible :
    (now : ℕ) (agent : Text) (db : Db) (r : Row) (c : Candidate)
    → candidate now agent db r ≡ some c
    → (c.row ≡ r) × IsEligible now agent db r c.job
unfolding candidate
candidate-IsEligible now agent db r c h = elim (Bool-cases (waits_on agent r)) [
  | inl w ↦
      let (e, g, l) =
        joined-some now r (get_deploy_job_by_id r.job_id db) c (rw (w, candidate) at h) in
      (e, record { waits = w; joins = g; lives = l })
  | inr w ↦ ground arith
]

pub eligible-candidate :
    (now : ℕ) (agent : Text) (db : Db) (r : Row) (j : Job)
    → IsEligible now agent db r j
    → candidate now agent db r ≡ some (record { job = j; row = r })
unfolding candidate joined
eligible-candidate now agent db r j h = ground arith

pub candidates_sound :
    (now : ℕ) (agent : Text) (db : Db) (rs : List Row) (c : Candidate)
    → Memᴰ c (candidates now agent db rs)
    → Memᴰ c.row rs × IsEligible now agent db c.row c.job
unfolding candidates
candidates_sound now agent db [] c m = elim m [ ]
candidates_sound now agent db (r ∷ rs) c m =
    head_or_tail (candidate now agent db r) (candidate-IsEligible now agent db r)
      (candidates_sound now agent db rs c) m
  where
    head_or_tail :
        (o : Option Candidate)
        → ((e : Candidate) → o ≡ some e → (e.row ≡ r) × IsEligible now agent db r e.job)
        → (Memᴰ c (candidates now agent db rs)
            → Memᴰ c.row rs × IsEligible now agent db c.row c.job)
        → Memᴰ c (cons_some o (candidates now agent db rs))
        → Memᴰ c.row (r ∷ rs) × IsEligible now agent db c.row c.job
    head_or_tail none h ih m = (Memᴰ.tail (ih m).0, (ih m).1)
    head_or_tail (some e) h ih (Memᴰ.tail m) = (Memᴰ.tail (ih m).0, (ih m).1)
    head_or_tail (some e) h ih (Memᴰ.head p) =
        let (q, l) = h e refl in
        let same : c.row ≡ r = ap (λ (x : Candidate). x.row) p ∙ q in
        let l' : IsEligible now agent db r c.job =
          subst (λ x. IsEligible now agent db r x.job) (sym p) l in
        (Memᴰ.head same, subst (λ x. IsEligible now agent db x c.job) (sym same) l')

-- No row that the query could return has a job before `j`.
abbrev pub IsBest : ℕ → Text → Db → List Row → Job → Type 0
IsBest now agent db rs j =
    All (λ r. (i : Job) → IsEligible now agent db r i → precedes i j ≡ false) rs

pub candidates_complete :
    (now : ℕ) (agent : Text) (db : Db) (rs : List Row) (j : Job)
    → IsFirst j (candidates now agent db rs)
    → IsBest now agent db rs j
unfolding candidates
candidates_complete now agent db [] j h = tt
candidates_complete now agent db (r ∷ rs) j h =
    cases (candidate now agent db r) refl h (candidates_complete now agent db rs j)
  where
    cases :
        (o : Option Candidate)
        → candidate now agent db r ≡ o
        → IsFirst j (cons_some o (candidates now agent db rs))
        → (IsFirst j (candidates now agent db rs) → IsBest now agent db rs j)
        → IsBest now agent db (r ∷ rs) j
    cases none e h ih = (λ i l. cc (e, eligible-candidate now agent db r i l), ih h)
    cases (some c) e h ih = (
      λ i l.
          subst (λ (x : Candidate). precedes x.job j ≡ false)
            (some-injective _ _ (sym e ∙ eligible-candidate now agent db r i l)) h.0,
      ih h.1,
    )
