-- ===== src/Auth/Limiter.antt =====
-- LoginRateLimiter of server/auth.go. An address without failures has no entry in the map: here
-- its list is empty.
use librawatch.Common.{ℕ, ◌-◌, Text, text_eq, Bool, ltb, if◌then◌else◌, List, [], ◌∷◌, ◌++◌, length}

abbrev pub rate_limit_max_attempts : ℕ
rate_limit_max_attempts = 5

abbrev pub rate_limit_window : ℕ
rate_limit_window = 900

pub record LoginRateLimiter : Type 0 where
  pub failures : Text → List ℕ
  pub max : ℕ
  pub window : ℕ

unfoldable pub new_login_rate_limiter : ℕ → ℕ → LoginRateLimiter
new_login_rate_limiter max window = record { failures = λ ip. []; max = max; window = window }

unfoldable pub set_failures : Text → List ℕ → LoginRateLimiter → LoginRateLimiter
unfolding text_eq
set_failures ip ts l = record l { failures = λ x. if text_eq x ip then ts else l.failures x }

-- The times from the first that is not before the cutoff.
unfoldable pub since : ℕ → List ℕ → List ℕ
since cutoff [] = []
since cutoff (t ∷ ts) = let rest = since cutoff ts in if ltb t cutoff then rest else t ∷ ts

unfoldable pub evict : ℕ → Text → LoginRateLimiter → LoginRateLimiter
unfolding since set_failures
evict now ip l = set_failures ip (since (now - l.window) (l.failures ip)) l

unfoldable pub allow : ℕ → Text → LoginRateLimiter → Bool × LoginRateLimiter
unfolding evict
allow now ip l = let l' = evict now ip l in (ltb (length (l'.failures ip)) l.max, l')

unfoldable pub record_failure : ℕ → Text → LoginRateLimiter → LoginRateLimiter
unfolding set_failures
record_failure now ip l = set_failures ip (l.failures ip ++ now ∷ []) l

unfoldable pub reset : Text → LoginRateLimiter → LoginRateLimiter
unfolding set_failures
reset ip l = set_failures ip [] l

-- One pass of the cleanup loop.
unfoldable pub clean_failures : ℕ → LoginRateLimiter → LoginRateLimiter
unfolding since
clean_failures now l = record l { failures = λ ip. since (now - l.window) (l.failures ip) }
