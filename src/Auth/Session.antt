-- ===== src/Auth/Session.antt =====
-- AuthManager of server/auth.go. Times are seconds; bcrypt and the random token are arguments.
use librawatch.Common.{
  ℕ, ◌+◌, Text, codes, text_eq, has_prefix, Bool, true, false, ◌&&◌, ltb, if◌then◌else◌, Option,
  none, some, take, drop, length, [],
}

abbrev pub session_duration : ℕ
session_duration = 28800

pub record AuthManager : Type 0 where
  pub username : Text
  pub password_hash : Text
  pub sessions : Text → Option ℕ

abbrev pub hash_or_empty : Option Text → Text
hash_or_empty none = []
hash_or_empty (some h) = h

-- A password that starts with $2 is a hash already.
unfoldable pub new_auth_manager : (Text → Option Text) → Text → Text → AuthManager
unfolding text_eq has_prefix
new_auth_manager generate username password = record {
  username = username;
  password_hash =
      if text_eq password []
      then []
      else if has_prefix (codes "$2") password
      then password
      else hash_or_empty (generate password);
  sessions = λ token. none;
}

unfoldable pub set_session : Text → Option ℕ → AuthManager → AuthManager
unfolding text_eq
set_session token v a = record a { sessions = λ x. if text_eq x token then v else a.sessions x }

-- `matches` is whether a hash and a password belong together.
unfoldable pub login :
    (Text → Text → Bool) → Text → ℕ → Text → Text → AuthManager → Option Text × AuthManager
unfolding text_eq set_session
login matches token now username password a =
    if text_eq a.username []
    then (none, a)
    else if text_eq username a.username && matches a.password_hash password
    then (some token, set_session token (some (now + session_duration)) a)
    else (none, a)

unfoldable pub logout : Text → AuthManager → AuthManager
unfolding set_session
logout token a = set_session token none a

abbrev pub is_before : ℕ → Option ℕ → Bool
is_before now none = false
is_before now (some exp) = ltb now exp

unfoldable pub valid : ℕ → Text → AuthManager → Bool
unfolding text_eq
valid now token a = if text_eq token [] then false else is_before now (a.sessions token)

unfoldable pub bearer : Text → Text
unfolding text_eq
bearer raw =
    if ltb 7 (length raw) && text_eq (take 7 raw) (codes "Bearer ") then drop 7 raw else raw

-- Whether the middleware lets a request with this header through.
unfoldable pub middleware : ℕ → Text → AuthManager → Bool
unfolding text_eq valid bearer
middleware now raw a = if text_eq a.username [] then true else valid now (bearer raw) a

abbrev pub unless_past : ℕ → Option ℕ → Option ℕ
unless_past now none = none
unless_past now (some exp) = if ltb exp now then none else some exp

-- One pass of the cleanup loop.
unfoldable pub clean_sessions : ℕ → AuthManager → AuthManager
clean_sessions now a = record a { sessions = λ x. unless_past now (a.sessions x) }
