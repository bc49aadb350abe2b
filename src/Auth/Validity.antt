-- ===== src/Auth/Validity.antt =====
-- When a session token lets a request through.
use librawatch.Common.{
  ℕ, ◌+◌, ◌≤◌, Text, text_eq, Bool, true, false, not, ◌&&◌, ◌≡◌, refl, ◌∙◌, ap, if_rule,
  if◌then◌else◌, Option, none, some, List, [], ◌∷◌, All, arith,
}
use librawatch.Auth.Session.{
  AuthManager, session_duration, new_auth_manager, set_session, login, logout, clean_sessions,
  unless_past, is_before, valid, bearer, middleware,
}

pub data SessionEvent : Type 0 where
  logs_in : Text → ℕ → Text → Text → SessionEvent
  logs_out : Text → SessionEvent
  cleans : ℕ → SessionEvent

module _ (matches : Text → Text → Bool) where
  unfoldable pub session_step : SessionEvent → AuthManager → AuthManager
  unfolding login logout clean_sessions
  session_step (logs_in token now u p) a = (login matches token now u p a).1
  session_step (logs_out token) a = logout token a
  session_step (cleans now) a = clean_sessions now a

  unfoldable pub session_run : List SessionEvent → AuthManager → AuthManager
  unfolding session_step
  session_run [] a = a
  session_run (e ∷ es) a = session_run es (session_step e a)

  -- Whether the credentials of an account are right.
  abbrev pub is_right : Text → Text → Text → Text → Bool
  is_right username hash u p = not (text_eq username []) && (text_eq u username && matches hash p)

  -- When the session of a token ends, of which one was given that the last event found without: it
  -- starts at a login with the right credentials and stops at a logout, and nothing else counts.
  unfoldable pub granted : Text → Text → Text → Option ℕ → List SessionEvent → Option ℕ
  unfolding text_eq
  granted username hash token g [] = g
  granted username hash token g (logs_in t now u p ∷ es) =
      granted username hash token
        (if is_right username hash u p && text_eq token t then some (now + session_duration) else g)
        es
  granted username hash token g (logs_out t ∷ es) =
      granted username hash token (if text_eq token t then none else g) es
  granted username hash token g (cleans now ∷ es) = granted username hash token g es

  -- No cleanup pass runs after this time.
  abbrev pub IsCleanedBy : ℕ → SessionEvent → Type 0
  IsCleanedBy now (logs_in t at u p) = Unit
  IsCleanedBy now (logs_out t) = Unit
  IsCleanedBy now (cleans at) = at ≤ now

  same_before :
      (now at : ℕ) (s : Option ℕ) → at ≤ now → is_before now (unless_past at s) ≡ is_before now s
  same_before now at none h = refl
  same_before now at (some exp) h = ground arith

  -- What a login does to the account and to the session of a token.
  login_effect :
      (now at : ℕ) (token t u p : Text) (a : AuthManager) (g : Option ℕ)
      → is_before now (a.sessions token) ≡ is_before now g
      → let a' = (login matches t at u p a).1 in
        (a'.username ≡ a.username)
        × (a'.password_hash ≡ a.password_hash)
        × (is_before now (a'.sessions token)
            ≡ is_before now (
                if is_right a.username a.password_hash u p && text_eq token t
                then some (at + session_duration)
                else g))
  unfolding login set_session
  login_effect now at token t u p a g e =
      if_rule Effect (text_eq a.username []) (none, a) _ (λ b. (refl, refl, refused (ground arith)))
        (λ b.
          if_rule Effect (text_eq u a.username && matches a.password_hash p) _ (none, a)
            (λ c. (refl, refl, named b c)) (λ c. (refl, refl, refused (ground arith))))
    where
      result : Bool → Bool
      result b = is_before now (if b then some (at + session_duration) else g)

      Effect : Option Text × AuthManager → Type 0
      Effect r =
          (r.1.username ≡ a.username)
          × (r.1.password_hash ≡ a.password_hash)
          × (is_before now (r.1.sessions token)
              ≡ result (is_right a.username a.password_hash u p && text_eq token t))

      refused :
          (is_right a.username a.password_hash u p && text_eq token t) ≡ false
          → is_before now (a.sessions token)
            ≡ result (is_right a.username a.password_hash u p && text_eq token t)
      refused f = rw f e

      both :
          (z : Bool)
          → is_before now (if z then some (at + session_duration) else a.sessions token) ≡ result z
      both true = refl
      both false = e

      named :
          text_eq a.username [] ≡ false
          → (text_eq u a.username && matches a.password_hash p) ≡ true
          → is_before now
              (if text_eq token t then some (at + session_duration) else a.sessions token)
            ≡ result (is_right a.username a.password_hash u p && text_eq token t)
      named b c =
          let same : text_eq token t
              ≡ (is_right a.username a.password_hash u p && text_eq token t) =
            ground arith in
          both (text_eq token t) ∙ ap result same

  right_same : (x y h k n p : Text) → x ≡ y → h ≡ k → is_right x h n p ≡ is_right y k n p
  right_same x y h k n p e f = rw (e, f) refl

  run-granted :
      (now : ℕ) (token username hash : Text) (es : List SessionEvent) (a : AuthManager)
      (g : Option ℕ)
      → All (IsCleanedBy now) es
      → a.username ≡ username
      → a.password_hash ≡ hash
      → is_before now (a.sessions token) ≡ is_before now g
      → is_before now ((session_run es a).sessions token)
        ≡ is_before now (granted username hash token g es)
  unfolding session_run granted
  run-granted now token username hash [] a g h u k e = e
  run-granted now token username hash (logs_in t at n p ∷ es) a g h u k e =
      let (f, l, i) = login_effect now at token t n p a g e in
      run-granted now token username hash es (login matches t at n p a).1 _ h.1 (f ∙ u) (l ∙ k) (
        i
        ∙ ap (λ b. is_before now (if b && text_eq token t then some (at + session_duration) else g))
            (right_same _ _ _ _ n p u k))
  run-granted now token username hash (logs_out t ∷ es) a g h u k e =
      run-granted now token username hash es (logout t a) _ h.1 u k (if_both (text_eq token t))
    where
      if_both :
          (b : Bool)
          → is_before now (if b then none else a.sessions token)
            ≡ is_before now (if b then none else g)
      if_both true = refl
      if_both false = e
  run-granted now token username hash (cleans at ∷ es) a g h u k e =
      run-granted now token username hash es (clean_sessions at a) g h.1 u k
        (same_before now at (a.sessions token) h.0 ∙ e)

  username-session_run :
      (es : List SessionEvent) (a : AuthManager) → (session_run es a).username ≡ a.username
  unfolding session_run
  username-session_run [] a = refl
  username-session_run (logs_in t at n p ∷ es) a =
      username-session_run es (login matches t at n p a).1
      ∙ (login_effect at at t t n p a (a.sessions t) refl).0
  username-session_run (logs_out t ∷ es) a = username-session_run es (logout t a)
  username-session_run (cleans at ∷ es) a = username-session_run es (clean_sessions at a)

  -- Whatever logins, logouts and cleanups came before, none of the cleanups after now, Middleware
  -- lets every request through when no username is set; otherwise it lets through exactly those
  -- with a token that a login with the right credentials was given less than eight hours ago and that
  -- was not logged out since. When and how often the expired sessions are cleaned makes no
  -- difference.
  pub valid-session_run :
      (generate : Text → Option Text) (username password : Text) (now : ℕ) (raw : Text)
      (es : List SessionEvent)
      → All (IsCleanedBy now) es
      → let a = new_auth_manager generate username password in
        middleware now raw (session_run es a) ≡ (
          if text_eq a.username []
          then true
          else if text_eq (bearer raw) []
          then false
          else is_before now (granted a.username a.password_hash (bearer raw) none es))
  unfolding middleware valid new_auth_manager
  valid-session_run generate username password now raw es h =
      let a = new_auth_manager generate username password in
      rw (username-session_run es a, run-granted now (bearer raw) _ _ es a none h refl refl refl)
        refl
