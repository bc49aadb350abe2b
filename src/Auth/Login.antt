-- ===== src/Auth/Login.antt =====
-- handleLogin and handleLogout of server/auth.go, with a database and a limiter.
use librawatch.Common.{ℕ, Text, codes, Bool, Option, none, some, List, [], ◌∷◌, ◌++◌}
use librawatch.Auth.Session.{AuthManager, login, logout, bearer}
use librawatch.Auth.Limiter.{LoginRateLimiter, record_failure, reset}

pub record AuditEntry : Type 0 where
  pub action : Text
  pub target : Text
  pub detail : Text
  pub actor : Text

pub record AuthState : Type 0 where
  pub auth : AuthManager
  pub limiter : LoginRateLimiter
  pub audit_logs : List AuditEntry

pub record Credentials : Type 0 where
  pub username : Text
  pub password : Text

-- The answer to a login, one constructor for each HTTP status.
pub data Answer : Type 0 where
  too_many_requests : Answer
  bad_request : Answer
  unauthorized : Answer
  ok : Text → Answer

unfoldable pub settle_login :
    ℕ → Text → Text → AuthState → Option Text × AuthManager → Answer × AuthState
unfolding record_failure reset
settle_login now ip username s (none, a) = (
  unauthorized,
  record {
    auth = a;
    limiter = record_failure now ip s.limiter;
    audit_logs =
        s.audit_logs
        ++ record {
          action = codes "login_failed";
          target = username;
          detail = codes "invalid credentials";
          actor = ip;
        }
          ∷ [];
  },
)
settle_login now ip username s (some token, a) = (
  ok token,
  record {
    auth = a;
    limiter = reset ip s.limiter;
    audit_logs =
        s.audit_logs
        ++ record { action = codes "login"; target = username; detail = []; actor = ip } ∷ [];
  },
)

-- The body that the request carries is none when it cannot be bound.
unfoldable pub try_login :
    (Text → Text → Bool) → Text → ℕ → Text → Option Credentials → AuthState → Answer × AuthState
unfolding settle_login login
try_login matches token now ip none s = (bad_request, s)
try_login matches token now ip (some c) s =
    settle_login now ip c.username s (login matches token now c.username c.password s.auth)

unfoldable pub handle_logout : Text → Text → AuthState → AuthState
unfolding logout bearer
handle_logout ip raw s = record s {
  auth = logout (bearer raw) s.auth;
  audit_logs =
      s.audit_logs ++ record { action = codes "logout"; target = []; detail = []; actor = ip } ∷ [];
}
