-- ===== src/Deploy/Counting.antt =====
-- How each statement changes the numbers of rows that the invariant bounds.
use librawatch.Common.{
  ℕ, ◌+◌, ◌≤◌, Text, text_eq, text_eq_iff, false, List, [], ◌∷◌, All, map_where, count_where, ◌≡◌,
  refl, arith,
}
use librawatch.Deploy.Model.{is_running, Row}
use librawatch.Deploy.Store.{ResultUpdate, is_key, updates, updated, cancels, cancelled_row}
use librawatch.Deploy.Claim.{runs_on, claimed_row}
use librawatch.Deploy.Statements.{IsLeased}

pub count-updated_key :
    (now : ℕ) (u : ResultUpdate) (job agent : Text) (rs : List Row)
    → count_where (is_key job agent) (map_where (updates u) (updated now u) rs)
      ≡ count_where (is_key job agent) rs
unfolding count_where map_where is_key updated
count-updated_key now u job agent [] = refl
count-updated_key now u job agent (r ∷ rs) = ground (arith, count-updated_key now u job agent rs)

pub count-updated_running :
    (now : ℕ) (u : ResultUpdate) (agent : Text) (rs : List Row)
    → is_running u.status ≡ false
    → count_where (runs_on agent) (map_where (updates u) (updated now u) rs)
      ≤ count_where (runs_on agent) rs
unfolding count_where map_where runs_on updated
count-updated_running now u agent [] h = omega arith
count-updated_running now u agent (r ∷ rs) h = ground (arith, count-updated_running now u agent rs)

pub updated-IsLeased :
    (now : ℕ) (u : ResultUpdate) (rs : List Row)
    → is_running u.status ≡ false
    → All IsLeased rs
    → All IsLeased (map_where (updates u) (updated now u) rs)
unfolding map_where updated
updated-IsLeased now u [] h l = tt
updated-IsLeased now u (r ∷ rs) h l = ground (arith, updated-IsLeased now u rs)

pub count-claimed_key :
    (lease : ℕ) (j a job agent : Text) (rs : List Row)
    → count_where (is_key job agent) (map_where (is_key j a) (claimed_row lease) rs)
      ≡ count_where (is_key job agent) rs
unfolding count_where map_where is_key claimed_row
count-claimed_key lease j a job agent [] = refl
count-claimed_key lease j a job agent (r ∷ rs) =
    ground (arith, count-claimed_key lease j a job agent rs)

-- A claim of a row makes it run, and no other.
pub count-claimed_running :
    (lease : ℕ) (j a agent : Text) (rs : List Row)
    → count_where (runs_on agent) (map_where (is_key j a) (claimed_row lease) rs)
      ≤ count_where (runs_on agent) rs + count_where (is_key j a) rs
unfolding count_where map_where runs_on is_key claimed_row
count-claimed_running lease j a agent [] = omega arith
count-claimed_running lease j a agent (r ∷ rs) =
    ground (arith, count-claimed_running lease j a agent rs)

pub count-claimed_others :
    (lease : ℕ) (j a agent : Text) (rs : List Row)
    → text_eq a agent ≡ false
    → count_where (runs_on agent) (map_where (is_key j a) (claimed_row lease) rs)
      ≡ count_where (runs_on agent) rs
unfolding count_where map_where runs_on is_key claimed_row
count-claimed_others lease j a agent [] h = refl
count-claimed_others lease j a agent (r ∷ rs) h = ground (
  arith,
  count-claimed_others lease j a agent rs,
  text_eq_iff r.agent_id a,
  text_eq_iff r.agent_id agent,
  text_eq_iff a agent,
)

pub claimed-IsLeased :
    (lease : ℕ) (j a : Text) (rs : List Row)
    → All IsLeased rs
    → All IsLeased (map_where (is_key j a) (claimed_row lease) rs)
unfolding map_where claimed_row
claimed-IsLeased lease j a [] l = tt
claimed-IsLeased lease j a (r ∷ rs) l = ground (arith, claimed-IsLeased lease j a rs)

pub count-cancelled_key :
    (id job agent : Text) (rs : List Row)
    → count_where (is_key job agent) (map_where (cancels id) cancelled_row rs)
      ≡ count_where (is_key job agent) rs
unfolding count_where map_where is_key cancelled_row
count-cancelled_key id job agent [] = refl
count-cancelled_key id job agent (r ∷ rs) = ground (arith, count-cancelled_key id job agent rs)

pub count-cancelled_running :
    (id agent : Text) (rs : List Row)
    → count_where (runs_on agent) (map_where (cancels id) cancelled_row rs)
      ≤ count_where (runs_on agent) rs
unfolding count_where map_where runs_on cancelled_row
count-cancelled_running id agent [] = omega arith
count-cancelled_running id agent (r ∷ rs) = ground (arith, count-cancelled_running id agent rs)

pub cancelled-IsLeased :
    (id : Text) (rs : List Row)
    → All IsLeased rs
    → All IsLeased (map_where (cancels id) cancelled_row rs)
unfolding map_where cancelled_row
cancelled-IsLeased id [] l = tt
cancelled-IsLeased id (r ∷ rs) l = ground (arith, cancelled-IsLeased id rs)
