-- ===== src/Deploy/Fate.antt =====
-- What a lease sweep makes of each row of deploy_results.
use librawatch.Common.{
  Bool-cases, ℕ, ◌+◌, ◌*◌, Text, true, false, Bool, none, Option, some, List, [], ◌∷◌, any, leb,
  if◌then◌else◌, ◌≡◌, refl, sym, subst, arith, ◌⊎◌, inl, inr, map_where,
}
use librawatch.Deploy.Model.{Status, is_running, Row, Db}
use librawatch.Deploy.Store.{
  ResultUpdate, is_key, attempt_matches, updates, updated, update_deploy_result, lease_expired,
}
use librawatch.Deploy.Claim.{claimed_row, claim}
use librawatch.Deploy.Invariant.{results-update_job_status}
use librawatch.Deploy.Dispatch.{Server, apply_update, settle_job, pump_agent}
use librawatch.Deploy.Pump.{pump_agent_rule}
use librawatch.Deploy.Sweep.{
  fail_unconfirmed, fail_exhausted, requeue, lease_outcome_cases, lease_outcome, sweep_lease,
  sweep_leases,
}

-- A lease that is still good.
abbrev pub is_good : ℕ → Option ℕ → Bool
is_good now none = false
is_good now (some lease) = leb now lease

-- A row that failed, waits, or runs on a good lease.
abbrev pub is_swept : ℕ → Status → Option ℕ → Bool
is_swept now Status.failed lease = true
is_swept now Status.pending lease = true
is_swept now Status.running lease = is_good now lease
is_swept now _ lease = false

-- The rows `ys` are the rows `xs` in their order, and each that ran past its lease is swept.
abbrev pub Swept : ℕ → List Row → List Row → Type 0
Swept now [] [] = Unit
Swept now [] (y ∷ ys) = ⊥
Swept now (x ∷ xs) [] = ⊥
Swept now (x ∷ xs) (y ∷ ys) =
    (y.job_id ≡ x.job_id)
    × (y.agent_id ≡ x.agent_id)
    × (lease_expired now x ≡ true → is_swept now y.status y.lease_until ≡ true)
    × Swept now xs ys

-- The row `x` and what has become of it, with the rows `rs` still to be swept.
abbrev pub Goes : ℕ → List Row → Row → Row → Type 0
Goes now rs x y =
    (y.job_id ≡ x.job_id)
    × (y.agent_id ≡ x.agent_id)
    × (lease_expired now x ≡ true
        → (is_swept now y.status y.lease_until ≡ true)
          ⊎ ((is_running y.status ≡ true) × (any (λ r. is_key r.job_id r.agent_id y) rs ≡ true)))

abbrev pub AllGo : ℕ → List Row → List Row → List Row → Type 0
AllGo now rs [] [] = Unit
AllGo now rs [] (y ∷ ys) = ⊥
AllGo now rs (x ∷ xs) [] = ⊥
AllGo now rs (x ∷ xs) (y ∷ ys) = Goes now rs x y × AllGo now rs xs ys

AllGo-map_where :
    (now : ℕ) (rs rs' : List Row) (p : Row → Bool) (f : Row → Row)
    → ((x y : Row) → Goes now rs x y → Goes now rs' x (if p y then f y else y))
    → (xs ys : List Row) → AllGo now rs xs ys
    → AllGo now rs' xs (map_where p f ys)
unfolding map_where
AllGo-map_where now rs rs' p f keep [] [] h = tt
AllGo-map_where now rs rs' p f keep [] (y ∷ ys) h = h
AllGo-map_where now rs rs' p f keep (x ∷ xs) [] h = h
AllGo-map_where now rs rs' p f keep (x ∷ xs) (y ∷ ys) h =
    (keep x y h.0, AllGo-map_where now rs rs' p f keep xs ys h.1)

-- The statuses that the sweep and a released claim write.
abbrev IsRest : Status → Type 0
IsRest s = (s ≡ Status.failed) ⊎ (s ≡ Status.pending)

rest_swept : (now : ℕ) (s : Status) (l : Option ℕ) → IsRest s → is_swept now s l ≡ true
rest_swept now s l (inl e) = rw e refl
rest_swept now s l (inr e) = rw e refl

module _ (now at : ℕ) (u : ResultUpdate) (rest : IsRest u.status) where
  update-AllGo :
      (rs xs : List Row) (db : Db)
      → AllGo now rs xs db.results
      → AllGo now rs xs (update_deploy_result at u db).0.results
  unfolding update_deploy_result
  update-AllGo rs xs db = AllGo-map_where now rs rs (updates u) (updated at u) keep xs db.results
    where
      keep :
          (x y : Row) → Goes now rs x y → Goes now rs x (if updates u y then updated at u y else y)
      keep x y (p, q, g) = elim (Bool-cases (updates u y)) [
        | inl b ↦ rw b (unfold updated in (p, q, (λ e. inl (rest_swept now u.status none rest))))
        | inr b ↦ rw b (p, q, g)
      ]

  -- An update of the first row's key that matches every attempt sweeps that row.
  settles :
      (r : Row) (rs xs : List Row) (db : Db)
      → u.job_id ≡ r.job_id
      → u.agent_id ≡ r.agent_id
      → u.expected_attempt ≡ none
      → AllGo now (r ∷ rs) xs db.results
      → AllGo now rs xs (update_deploy_result at u db).0.results
  unfolding update_deploy_result
  settles r rs xs db a b n =
      AllGo-map_where now (r ∷ rs) rs (updates u) (updated at u) keep xs db.results
    where
      still :
          (y : Row)
          → updates u y ≡ false
          → (is_swept now y.status y.lease_until ≡ true)
            ⊎ ((is_running y.status ≡ true)
                × (any (λ x. is_key x.job_id x.agent_id y) (r ∷ rs) ≡ true))
          → (is_swept now y.status y.lease_until ≡ true)
            ⊎ ((is_running y.status ≡ true) × (any (λ x. is_key x.job_id x.agent_id y) rs ≡ true))
      still y c (inl h) = inl h
      still y c (inr (h, g)) = inr (h, (unfold updates any attempt_matches is_key in ground arith))

      keep :
          (x y : Row)
          → Goes now (r ∷ rs) x y
          → Goes now rs x (if updates u y then updated at u y else y)
      keep x y (p, q, g) = elim (Bool-cases (updates u y)) [
        | inl c ↦ rw c (unfold updated in (p, q, (λ e. inl (rest_swept now u.status none rest))))
        | inr c ↦ rw c (p, q, (λ e. still y c (g e)))
      ]

leb-later : (now wait : ℕ) → leb now (now + wait) ≡ true
leb-later now wait = ground arith

claim-AllGo :
    (now wait : ℕ) (rs xs : List Row) (j agent : Text) (db : Db)
    → AllGo now rs xs db.results
    → AllGo now rs xs (claim (now + wait) j agent db).results
unfolding claim
claim-AllGo now wait rs xs j agent db =
    AllGo-map_where now rs rs (is_key j agent) (claimed_row (now + wait)) keep xs db.results
  where
    keep :
        (x y : Row)
        → Goes now rs x y
        → Goes now rs x (if is_key j agent y then claimed_row (now + wait) y else y)
    keep x y (p, q, g) = elim (Bool-cases (is_key j agent y)) [
      | inl b ↦ rw b (unfold claimed_row in (p, q, (λ e. inl (leb-later now wait))))
      | inr b ↦ rw b (p, q, g)
    ]

pump_agent-AllGo :
    (now : ℕ) (rs xs : List Row) (agent : Text) (s : Server)
    → AllGo now rs xs s.db.results
    → AllGo now rs xs (pump_agent now agent s).0.db.results
pump_agent-AllGo now rs xs agent s o =
    pump_agent_rule (λ db. AllGo now rs xs db.results) now agent s o
      λ db' j attempt c.
        let claimed =
          subst (λ (x : Db). AllGo now rs xs x.results) (sym c.after)
            (claim-AllGo now (s.lease_minutes * 60) rs xs c.row.job_id agent s.db o) in
        (claimed, update-AllGo now now _ (inr refl) rs xs db' claimed)

sweep_lease-AllGo :
    (now : ℕ) (r : Row) (rs xs : List Row) (s : Server)
    → AllGo now (r ∷ rs) xs s.db.results
    → AllGo now rs xs (sweep_lease now r s).db.results
unfolding sweep_lease settle_job
sweep_lease-AllGo now r rs xs s o =
    subst (AllGo now rs xs) (sym (results-update_job_status r.job_id (lease_outcome now r s).db)) (
      lease_outcome_cases (λ t. AllGo now rs xs t.db.results) now r s
        (λ _.
          unfold fail_unconfirmed apply_update in
          settles now now _ (inl refl) r rs xs s.db refl refl refl o)
        (λ _.
          unfold fail_exhausted apply_update in
          settles now now _ (inl refl) r rs xs s.db refl refl refl o)
        (λ _ _.
          unfold requeue in
          pump_agent-AllGo now rs xs r.agent_id _
            (unfold apply_update in settles now now _ (inr refl) r rs xs s.db refl refl refl o)))

pub sweep_leases-AllGo :
    (now : ℕ) (rs xs : List Row) (s : Server)
    → AllGo now rs xs s.db.results
    → AllGo now [] xs (sweep_leases now rs s).db.results
unfolding sweep_leases
sweep_leases-AllGo now [] xs s o = o
sweep_leases-AllGo now (r ∷ rs) xs s o =
    sweep_leases-AllGo now rs xs (sweep_lease now r s) (sweep_lease-AllGo now r rs xs s o)

pub AllGo-Swept : (now : ℕ) (xs ys : List Row) → AllGo now [] xs ys → Swept now xs ys
unfolding any
AllGo-Swept now [] [] h = tt
AllGo-Swept now [] (y ∷ ys) h = h
AllGo-Swept now (x ∷ xs) [] h = h
AllGo-Swept now (x ∷ xs) (y ∷ ys) ((p, q, g), h) =
    (p, q, (λ e. is_done (g e)), AllGo-Swept now xs ys h)
  where
    is_done :
        (is_swept now y.status y.lease_until ≡ true)
          ⊎ ((is_running y.status ≡ true) × (false ≡ true))
        → is_swept now y.status y.lease_until ≡ true
    is_done (inl e) = e
    is_done (inr (e, f)) = cc
