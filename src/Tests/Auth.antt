-- ===== src/Tests/Auth.antt =====
-- The theorems on the login at concrete accounts.
use librawatch.Common.{
  ◌+◌, ◌≤◌, ℕ, if◌then◌else◌, true, false, codes, text_eq, ◌≡◌, refl, none, some, List, [], ◌∷◌,
  arith, subst,
}
use librawatch.Auth.Session.{middleware, bearer, AuthManager, new_auth_manager, is_before, login}
use librawatch.Auth.Validity.{
  SessionEvent, logs_in, logs_out, cleans, session_run, granted, valid-session_run,
}
use librawatch.Auth.Limiter.{new_login_rate_limiter}
use librawatch.Auth.Login.{AuthState, Credentials}
use librawatch.Auth.Overlap.{
  Attempt, Logins, LoginStep, enters, answers, wrong_answers, IsOverlapped,
}
use librawatch.Auth.Lockout.{wrong_answers-le-max}

-- A hash that is the password itself.
abbrev manager : AuthManager
manager = new_auth_manager (λ p. some p) (codes "admin") (codes "secret")

abbrev visits : List SessionEvent
visits =
    logs_in (codes "t1") 100 (codes "admin") (codes "secret")
    ∷ cleans 900
    ∷ logs_out (codes "t2")
    ∷ []

valid_example : middleware 1000 (codes "Bearer t1") (session_run text_eq visits manager) ≡ (
    if text_eq manager.username []
    then true
    else if text_eq (bearer (codes "Bearer t1")) []
    then false
    else is_before 1000 (
        granted text_eq manager.username manager.password_hash
          (bearer (codes "Bearer t1"))
          none
          visits))
valid_example =
    valid-session_run text_eq (λ p. some p) (codes "admin") (codes "secret") 1000
      (codes "Bearer t1") visits (tt, (omega arith, (tt, tt)))

abbrev guess : Attempt
guess = record {
  time = 100;
  token = codes "t";
  body = some (record { username = codes "admin"; password = codes "guess" });
}

-- Both arrive before one of them is answered.
abbrev guesses : List LoginStep
guesses =
    enters guess ∷ enters guess ∷ answers 1 101 ∷ answers 0 102 ∷ enters guess ∷ answers 0 103 ∷ []

abbrev state : AuthState
state = record { auth = manager; limiter = new_login_rate_limiter 1 900; audit_logs = [] }

wrong_guess :
    (c : Credentials) (now : ℕ)
    → guess.body ≡ some c
    → login text_eq guess.token now c.username c.password manager ≡ (none, manager)
wrong_guess c now e =
    subst (λ d. login text_eq guess.token now d.username d.password manager ≡ (none, manager))
      (some_inj e) (unfold login text_eq new_auth_manager in refl)
  where
    some_inj : {a b : Credentials} → some a ≡ some b → a ≡ b
    some_inj h = cc

abbrev logins : Logins
logins = record { in_flight = []; state = state }

-- Of the three, two are compared, although the limiter allows one.
lockout_test : wrong_answers text_eq (codes "10.0.0.1") guesses logins ≡ 2
unfolding wrong_answers text_eq new_auth_manager new_login_rate_limiter
lockout_test = refl

lockout_example : wrong_answers text_eq (codes "10.0.0.1") guesses logins + 0 ≤ 1 + 1
unfolding new_login_rate_limiter IsOverlapped text_eq new_auth_manager
lockout_example =
    wrong_answers-le-max text_eq (codes "10.0.0.1") 100 1 guesses state tt (omega arith)
      (
        (wrong_guess, (omega arith, omega arith)),
        (
          (wrong_guess, (omega arith, omega arith)),
          (
            (omega arith, omega arith),
            (
              (omega arith, omega arith),
              ((wrong_guess, (omega arith, omega arith)), ((omega arith, omega arith), tt)),
            ),
          ),
        ),
      )
      (omega arith, (omega arith, (omega arith, (omega arith, (omega arith, (omega arith, tt))))))
