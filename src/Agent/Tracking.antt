-- ===== src/Agent/Tracking.antt =====
-- The set of active jobs and the commands on their way.
use librawatch.Common.{
  ℕ, ◌≤◌, Text, text_eq, text_eq_iff, true, false, not, if◌then◌else◌, List, [], ◌∷◌, ◌++◌, filter,
  any, count_where, count_where-append, ◌≡◌, refl, arith,
}
use librawatch.Agent.Queue.{IncomingCommand}

-- How many of the commands are of job `j`, and how often `j` is in the set.
abbrev pub commands_of : Text → List IncomingCommand → ℕ
commands_of j = count_where (λ c. text_eq c.job_id j)

abbrev pub claims_of : Text → List Text → ℕ
claims_of j = count_where (λ k. text_eq k j)

-- Each named job is active exactly while it has a command on its way, and has at most one.
abbrev pub Tracks : List IncomingCommand → List Text → Type 0
Tracks cs active =
    (j : Text)
    → text_eq j [] ≡ false
    → (commands_of j cs ≡ claims_of j active) × (claims_of j active ≤ 1)

abbrev pub without : Text → List Text → List Text
without job = filter (λ j. not (text_eq j job))

claims_of-without :
    (j job : Text) (active : List Text)
    → claims_of j (without job active) ≡ (if text_eq job j then 0 else claims_of j active)
unfolding count_where filter
claims_of-without j job [] = ground arith
claims_of-without j job (k ∷ active) =
    ground
      (arith, claims_of-without j job active, text_eq_iff k job, text_eq_iff k j, text_eq_iff job j)

unclaimed :
    (job : Text) (active : List Text)
    → any (λ k. text_eq k job) active ≡ false
    → claims_of job active ≡ 0
unfolding count_where any
unclaimed job [] h = refl
unclaimed job (k ∷ active) h = ground (arith, unclaimed job active)

pub Tracks-release :
    (cmd : IncomingCommand) (rest : List IncomingCommand) (active : List Text)
    → Tracks (cmd ∷ rest) active
    → Tracks rest (without cmd.job_id active)
unfolding count_where
Tracks-release cmd rest active t j named =
    ground (arith, t j named, claims_of-without j cmd.job_id active)

pub Tracks-release_unnamed :
    (cmd : IncomingCommand) (rest : List IncomingCommand) (active : List Text)
    → text_eq cmd.job_id [] ≡ true
    → Tracks (cmd ∷ rest) active
    → Tracks rest active
unfolding count_where
Tracks-release_unnamed cmd rest active e t j named =
    ground (arith, t j named, text_eq_iff cmd.job_id [], text_eq_iff cmd.job_id j)

pub Tracks-claim :
    (cmd : IncomingCommand) (cs : List IncomingCommand) (active : List Text)
    → any (λ k. text_eq k cmd.job_id) active ≡ false
    → Tracks cs active
    → Tracks (cs ++ cmd ∷ []) (cmd.job_id ∷ active)
unfolding count_where
Tracks-claim cmd cs active free t j named = ground (
  arith,
  t j named,
  unclaimed cmd.job_id active free,
  text_eq_iff cmd.job_id j,
  count_where-append (λ c. text_eq c.job_id j) cs (cmd ∷ []),
)

pub Tracks-claim_unnamed :
    (cmd : IncomingCommand) (cs : List IncomingCommand) (active : List Text)
    → text_eq cmd.job_id [] ≡ true
    → Tracks cs active
    → Tracks (cs ++ cmd ∷ []) active
unfolding count_where
Tracks-claim_unnamed cmd cs active e t j named = ground (
  arith,
  t j named,
  text_eq_iff cmd.job_id [],
  text_eq_iff cmd.job_id j,
  count_where-append (λ c. text_eq c.job_id j) cs (cmd ∷ []),
)

-- A claim that could not be queued is taken back.
pub Tracks-unclaim :
    (cmd : IncomingCommand) (cs : List IncomingCommand) (active : List Text)
    → any (λ k. text_eq k cmd.job_id) active ≡ false
    → Tracks cs active
    → Tracks cs (without cmd.job_id (cmd.job_id ∷ active))
unfolding count_where
Tracks-unclaim cmd cs active free t j named = ground (
  arith,
  t j named,
  unclaimed cmd.job_id active free,
  text_eq_iff cmd.job_id j,
  claims_of-without j cmd.job_id (cmd.job_id ∷ active),
)
