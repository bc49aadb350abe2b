-- ===== src/Auth/Overlap.antt =====
-- Logins of one address that overlap (handleLogin of server/auth.go): each takes the limiter's lock
-- in Allow and again in RecordFailure, and compares the password in between.
use librawatch.Common.{
  ℕ, zero, suc, ◌+◌, ◌≤◌, Text, Bool, if◌then◌else◌, Option, none, some, List, [], ◌∷◌, length,
}
use librawatch.Auth.Limiter.{allow}
use librawatch.Auth.Login.{AuthState, Credentials, Answer, unauthorized, try_login}

-- An attempt: the time at which it arrives, the token that a success would give, and the body.
pub record Attempt : Type 0 where
  pub time : ℕ
  pub token : Text
  pub body : Option Credentials

-- The attempts that Allow let through and that are not answered yet.
pub record Logins : Type 0 where
  pub in_flight : List Attempt
  pub state : AuthState

-- An attempt arrives; one of those in flight, by its place, is answered at a time.
pub data LoginStep : Type 0 where
  enters : Attempt → LoginStep
  answers : ℕ → ℕ → LoginStep

abbrev pub put_back : Attempt → Option (Attempt × List Attempt) → Option (Attempt × List Attempt)
put_back t none = none
put_back t (some (x, xs)) = some (x, t ∷ xs)

abbrev pub take_at : ℕ → List Attempt → Option (Attempt × List Attempt)
take_at i [] = none
take_at zero (t ∷ ts) = some (t, ts)
take_at (suc i) (t ∷ ts) = put_back t (take_at i ts)

abbrev pub is_unauthorized : Answer → ℕ
is_unauthorized unauthorized = 1
is_unauthorized _ = 0

module _ (matches : Text → Text → Bool) (ip : Text) where
  -- The first half of handleLogin: an attempt that Allow refuses is answered at once.
  unfoldable pub enter : Attempt → Logins → Logins
  unfolding allow
  enter t g =
      let (allowed, l) = allow t.time ip g.state.limiter in
      record {
        in_flight = if allowed then t ∷ g.in_flight else g.in_flight;
        state = record g.state { limiter = l };
      }

  -- The second half, with 1 for the answer to a wrong password.
  unfoldable pub answer_attempt : ℕ → Option (Attempt × List Attempt) → Logins → ℕ × Logins
  unfolding try_login
  answer_attempt now none g = (0, g)
  answer_attempt now (some (t, rest)) g =
      let (answer, s) = try_login matches t.token now ip t.body g.state in
      (is_unauthorized answer, record { in_flight = rest; state = s })

  unfoldable pub login_step : LoginStep → Logins → ℕ × Logins
  unfolding enter answer_attempt
  login_step (enters t) g = (0, enter t g)
  login_step (answers i now) g = answer_attempt now (take_at i g.in_flight) g

  -- How many attempts are answered as a wrong password.
  unfoldable pub wrong_answers : List LoginStep → Logins → ℕ
  unfolding login_step
  wrong_answers [] g = 0
  wrong_answers (e ∷ es) g = let (n, g') = login_step e g in n + wrong_answers es g'

  -- Never more than `k` attempts are in flight besides one.
  unfoldable pub IsOverlapped : ℕ → List LoginStep → Logins → Type 0
  unfolding login_step
  IsOverlapped k [] g = Unit
  IsOverlapped k (e ∷ es) g =
      let g' = (login_step e g).1 in (length g'.in_flight ≤ 1 + k) × IsOverlapped k es g'
