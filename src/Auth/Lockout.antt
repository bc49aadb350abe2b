-- ===== src/Auth/Lockout.antt =====
-- How many passwords an address may try.
use librawatch.Common.{
  ℕ, ◌+◌, ◌-◌, ◌≤◌, Text, text_eq_refl, Bool, true, ltb, ◌≡◌, refl, sym, ◌∙◌, ap, subst,
  if◌then◌else◌, false, zero, suc, Option, none, some, List, [], ◌∷◌, ◌++◌, All, All-append,
  All-map, length, length-append, arith,
}
use librawatch.Auth.Session.{AuthManager, login}
use librawatch.Auth.Limiter.{LoginRateLimiter, since, set_failures, evict, allow, record_failure}
use librawatch.Auth.Login.{AuditEntry, AuthState, Credentials, settle_login, try_login}
use librawatch.Auth.Overlap.{
  Attempt, Logins, LoginStep, enters, answers, put_back, take_at, is_unauthorized, enter,
  answer_attempt, login_step, wrong_answers, IsOverlapped,
}

-- Nothing is evicted while every time is within the window.
since-All : (cutoff : ℕ) (ts : List ℕ) → All (λ t. cutoff ≤ t) ts → since cutoff ts ≡ ts
unfolding since
since-All cutoff [] h = refl
since-All cutoff (t ∷ ts) h = ground arith

module _ (matches : Text → Text → Bool) (ip : Text) where
  -- An attempt whose credentials are not right, whenever they are compared.
  abbrev pub IsWrong : AuthManager → Attempt → Type 0
  IsWrong a t =
      (c : Credentials) (now : ℕ)
      → t.body ≡ some c
      → login matches t.token now c.username c.password a ≡ (none, a)

  abbrev pub IsWithin : ℕ → ℕ → ℕ → Type 0
  IsWithin start window now = (start ≤ now) × (now ≤ start + window)

  -- Only wrong attempts arrive, and all is within one window from `start` on.
  abbrev pub Fits : ℕ → ℕ → AuthManager → LoginStep → Type 0
  Fits start window a (enters t) = IsWrong a t × IsWithin start window t.time
  Fits start window a (answers i now) = IsWithin start window now

  module _ (start window max : ℕ) (a : AuthManager) where
    -- What is kept between two attempts: `n` failures, none from before the start.
    record Kept (n : ℕ) (s : AuthState) : Type 0 where
      same : s.auth ≡ a
      limit : s.limiter.max ≡ max
      span : s.limiter.window ≡ window
      recent : All (λ t. start ≤ t) (s.limiter.failures ip)
      count : length (s.limiter.failures ip) ≡ n

    failures-set : (ts : List ℕ) (l : LoginRateLimiter) → (set_failures ip ts l).failures ip ≡ ts
    unfolding set_failures
    failures-set ts l = rw (text_eq_refl ip) refl

    Kept-evicted :
        (n now : ℕ) (s : AuthState)
        → now ≤ start + window
        → Kept n s
        → Kept n (record s { limiter = evict now ip s.limiter })
    unfolding evict
    Kept-evicted n now s h k =
        let early : All (λ t. now - s.limiter.window ≤ t) (s.limiter.failures ip) =
          All-map (λ t. start ≤ t) (λ t. now - s.limiter.window ≤ t)
            (λ t g. omega (arith, g, h, k.span)) (s.limiter.failures ip) k.recent in
        let e = failures-set (since (now - s.limiter.window) (s.limiter.failures ip)) s.limiter in
        let f = e ∙ since-All _ _ early in
        record {
          same = k.same;
          limit = k.limit;
          span = k.span;
          recent = subst (All (λ t. start ≤ t)) (sym f) k.recent;
          count = ap length f ∙ k.count;
        }

    Kept-failed :
        (n now : ℕ) (log : List AuditEntry) (s : AuthState)
        → start ≤ now
        → Kept n s
        → Kept
            (1 + n)
            (record { auth = a; limiter = record_failure now ip s.limiter; audit_logs = log })
    unfolding record_failure
    Kept-failed n now log s h k =
        let e = failures-set (s.limiter.failures ip ++ now ∷ []) s.limiter in
        record {
          same = refl;
          limit = k.limit;
          span = k.span;
          recent =
              subst (All (λ t. start ≤ t)) (sym e)
                (All-append (λ t. start ≤ t) (s.limiter.failures ip) (now ∷ []) k.recent (h, tt));
          count =
              ap length e
              ∙ omega (arith, length-append (s.limiter.failures ip) (now ∷ []), k.count);
        }

    -- What is kept between two steps, when at most `k` attempts overlap with another.
    record Bounded (k n : ℕ) (g : Logins) : Type 0 where
      kept : Kept n g.state
      wrong : All (IsWrong a) g.in_flight
      bound : n + length g.in_flight ≤ max + k

    enter-Bounded :
        (t : Attempt) (k n : ℕ) (g : Logins)
        → IsWrong a t
        → IsWithin start window t.time
        → Bounded k n g
        → length (enter matches ip t g).in_flight ≤ 1 + k
        → Bounded k n (enter matches ip t g)
    enter-Bounded t k n g w (h, l) b le =
        unfold enter allow in
        by_limit (ltb (length ((evict t.time ip g.state.limiter).failures ip)) g.state.limiter.max)
          refl le
      where
        s' : AuthState
        s' = record g.state { limiter = evict t.time ip g.state.limiter }

        k' : Kept n s'
        k' = Kept-evicted n t.time g.state l b.kept

        by_limit :
            (free : Bool)
            → ltb (length (s'.limiter.failures ip)) g.state.limiter.max ≡ free
            → length (if free then t ∷ g.in_flight else g.in_flight) ≤ 1 + k
            → Bounded k n
                (record { in_flight = if free then t ∷ g.in_flight else g.in_flight; state = s' })
        by_limit true e le =
            let f = k'.count in
            let m = k'.limit in record { kept = k'; wrong = (w, b.wrong); bound = ground arith }
        by_limit false e le = record { kept = k'; wrong = b.wrong; bound = b.bound }

    -- Taking one of the attempts leaves the others.
    abbrev Takes : List Attempt → Option (Attempt × List Attempt) → Type 0
    Takes ts none = Unit
    Takes ts (some (t, rest)) = IsWrong a t × All (IsWrong a) rest × (length ts ≡ 1 + length rest)

    put_back-Takes :
        (t : Attempt) (ts : List Attempt) (o : Option (Attempt × List Attempt))
        → IsWrong a t
        → Takes ts o
        → Takes (t ∷ ts) (put_back t o)
    put_back-Takes t ts none w h = tt
    put_back-Takes t ts (some (x, xs)) w (v, vs, e) = (v, (w, vs), (omega (arith, e)))

    take_at-Takes : (i : ℕ) (ts : List Attempt) → All (IsWrong a) ts → Takes ts (take_at i ts)
    take_at-Takes i [] w = tt
    take_at-Takes zero (t ∷ ts) w = (w.0, w.1, (omega arith))
    take_at-Takes (suc i) (t ∷ ts) w =
        put_back-Takes t ts (take_at i ts) w.0 (take_at-Takes i ts w.1)

    abbrev Settled : ℕ → ℕ → ℕ × Logins → Type 0
    Settled k n r = Bounded k (r.0 + n) r.1

    answered :
        (t : Attempt) (rest : List Attempt) (body : Option Credentials) (now k n : ℕ) (g : Logins)
        → ((c : Credentials)
            → body ≡ some c
            → login matches t.token now c.username c.password a ≡ (none, a))
        → start ≤ now
        → Kept n g.state
        → All (IsWrong a) rest
        → n + (1 + length rest) ≤ max + k
        → let (answer, s) = try_login matches t.token now ip body g.state in
          Settled k n (is_unauthorized answer, record { in_flight = rest; state = s })
    unfolding try_login settle_login
    answered t rest none now k n g wrong h kept ws b = record {
      kept = subst (λ m. Kept m g.state) (omega arith) kept;
      wrong = ws;
      bound = omega (arith, b);
    }
    answered t rest (some c) now k n g wrong h kept ws b =
        let refused =
          ap (login matches t.token now c.username c.password) kept.same ∙ wrong c refl in
        subst
          (λ r.
            let (answer, s) = settle_login now ip c.username g.state r in
            Settled k n (is_unauthorized answer, record { in_flight = rest; state = s }))
          (sym refused)
          (record {
            kept = Kept-failed n now _ g.state h kept;
            wrong = ws;
            bound = omega (arith, b);
          })

    answer_attempt-Bounded :
        (now k n : ℕ) (o : Option (Attempt × List Attempt)) (g : Logins)
        → start ≤ now
        → Takes g.in_flight o
        → Bounded k n g
        → Settled k n (answer_attempt matches ip now o g)
    unfolding answer_attempt
    answer_attempt-Bounded now k n none g h w b = subst (λ m. Bounded k m g) (omega arith) b
    answer_attempt-Bounded now k n (some (t, rest)) g h (w, ws, e) b =
        answered t rest t.body now k n g (λ c. w c now) h b.kept ws (omega (arith, b.bound, e))

    step-Bounded :
        (e : LoginStep) (k n : ℕ) (g : Logins)
        → Fits start window a e
        → Bounded k n g
        → length (login_step matches ip e g).1.in_flight ≤ 1 + k
        → Settled k n (login_step matches ip e g)
    unfolding login_step
    step-Bounded (enters t) k n g (w, h) b le =
        subst (λ m. Bounded k m (enter matches ip t g)) (omega arith)
          (enter-Bounded t k n g w h b le)
    step-Bounded (answers i now) k n g h b le =
        answer_attempt-Bounded now k n (take_at i g.in_flight) g h.0
          (take_at-Takes i g.in_flight b.wrong) b

    wrong_answers-le :
        (es : List LoginStep) (k n : ℕ) (g : Logins)
        → All (Fits start window a) es
        → IsOverlapped matches ip k es g
        → Bounded k n g
        → wrong_answers matches ip es g + n ≤ max + k
    unfolding wrong_answers IsOverlapped
    wrong_answers-le [] k n g w o b = omega (arith, b.bound)
    wrong_answers-le (e ∷ es) k n g w o b =
        let b' = step-Bounded e k n g w.0 b o.0 in
        omega (arith, wrong_answers-le es k _ _ w.1 o.1 b')

  -- However many wrong passwords an address sends within one window, in whatever order they are
  -- answered and mixed with bodies that cannot be read: when never more than `k` attempts are in
  -- flight besides one, the limiter lets at most `k` more be compared than its maximum, those that
  -- failed before counted, when these are at most the maximum and none is from before the window.
  -- One after the other, with `k` zero, they are at most the maximum.
  pub wrong_answers-le-max :
      (start k : ℕ) (es : List LoginStep) (s : AuthState)
      → All (λ t. start ≤ t) (s.limiter.failures ip)
      → length (s.limiter.failures ip) ≤ s.limiter.max
      → All (Fits start s.limiter.window s.auth) es
      → IsOverlapped matches ip k es (record { in_flight = []; state = s })
      → wrong_answers matches ip es (record { in_flight = []; state = s })
          + length (s.limiter.failures ip)
        ≤ s.limiter.max + k
  wrong_answers-le-max start k es s recent le w o =
      wrong_answers-le start s.limiter.window s.limiter.max s.auth es k
        (length (s.limiter.failures ip)) (record { in_flight = []; state = s }) w o
        (record {
          kept = record { same = refl; limit = refl; span = refl; recent = recent; count = refl };
          wrong = tt;
          bound = omega (arith, le);
        })
