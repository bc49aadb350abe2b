-- ===== src/Kill/Verdict.antt =====
-- What verifyAndKillPID does on the way to its result.
use librawatch.Common.{
  ℕ, zero, suc, ◌+◌, ◌≤◌, Text, codes, Bool, true, false, ◌&&◌, ◌≡◌, refl, List, [], ◌∷◌, arith,
  if◌then◌else◌,
}
use librawatch.Kill.Verify.{
  KillResult, KillDeps, ended, classify_kill_failure, final_attempt, last_resort, force,
  verify_and_kill_pid,
}

-- What was done to the process, the latest first.
pub data Action : Type 0 where
  terminated : Text → Action
  checked : Bool → Action
  closed : Action

-- The same operations, written down.
abbrev pub logged : {W : Type 0} → KillDeps W → KillDeps (W × List Action)
logged d = record {
  terminate = λ s. let (o, w) = d.terminate s.0 in (o, (w, terminated o ∷ s.1));
  pid_exists = λ s. let (a, w) = d.pid_exists s.0 in (a, (w, checked a ∷ s.1));
  graceful_close = λ s. (d.graceful_close s.0, closed ∷ s.1);
  sleep = λ s. (d.sleep s.0, s.1);
}

abbrev pub terminations : List Action → ℕ
terminations [] = 0
terminations (terminated o ∷ l) = suc (terminations l)
terminations (checked a ∷ l) = terminations l
terminations (closed ∷ l) = terminations l

-- Whether every try was checked, from the last action back: `seen` when a check came after those
-- that are left.
abbrev pub all_checked : Bool → List Action → Bool
all_checked seen [] = true
all_checked seen (terminated o ∷ l) = seen && all_checked false l
all_checked seen (closed ∷ l) = seen && all_checked false l
all_checked seen (checked a ∷ l) = all_checked true l

-- From the log `before`, with `n` attempts to come: the process was gone at the last check, with
-- no more attempts than these; or all were made and it was alive, for the reason of the last.
pub data Verdict {W : Type 0} (before : List Action) (n : ℕ)
    : KillResult × (W × List Action) → Type 0 where
  gone :
      (w : W) (l : List Action) (reason : Text)
      → terminations l ≤ terminations before + n
      → all_checked true l ≡ true
      → Verdict before n (ended reason, (w, checked false ∷ l))
  alive :
      (w : W) (l : List Action) (output : Text)
      → terminations l + 1 ≡ terminations before + n
      → all_checked false l ≡ true
      → Verdict before n (
        record { success = false; reason = classify_kill_failure output },
        (w, checked true ∷ terminated output ∷ l),
      )

shifted :
    {W : Type 0} (l k : List Action) (m n : ℕ) {r : KillResult × (W × List Action)}
    → terminations l + m ≡ terminations k + n
    → Verdict l m r
    → Verdict k n r
shifted l k m n e (gone w t reason h c) = gone w t reason (omega (arith, e, h)) c
shifted l k m n e (alive w t output h c) = alive w t output (omega (arith, e, h)) c

-- One check, and what follows it while the process is alive.
after_check :
    {W : Type 0} (a : Bool) (w : W) (l before : List Action) (n : ℕ) (reason : Text)
    (rest : KillResult × (W × List Action))
    → terminations l ≤ terminations before + n
    → all_checked true l ≡ true
    → (a ≡ true → Verdict before n rest)
    → Verdict before n (if a then rest else (ended reason, (w, checked a ∷ l)))
after_check true w l before n reason rest h c k = k refl
after_check false w l before n reason rest h c k = gone w l reason h c

module _ {W : Type 0} (d : KillDeps W) where
  final_attempt-Verdict :
      (w : W) (log : List Action)
      → all_checked false log ≡ true
      → Verdict log 1 (final_attempt (logged d) (w, log))
  unfolding final_attempt
  final_attempt-Verdict w log c =
      let l = terminated (d.terminate w).0 ∷ log in
      let check = d.pid_exists (d.sleep (d.terminate w).1) in
      after_check check.0 check.1 l log 1 [] _ (omega arith) c
        (λ e. rw e (alive check.1 log _ refl c))

  last_resort-Verdict :
      (w : W) (log : List Action)
      → all_checked false log ≡ true
      → Verdict log 1 (last_resort (logged d) (w, log))
  unfolding last_resort
  last_resort-Verdict w log c =
      let check = d.pid_exists (d.sleep (d.graceful_close w)) in
      let l = checked check.0 ∷ closed ∷ log in
      after_check check.0 check.1 (closed ∷ log) log 1 [] _ (omega arith) c
        (λ e. shifted l log 1 1 refl (final_attempt-Verdict check.1 l c))

  force-Verdict :
      (n : ℕ) (w : W) (log : List Action)
      → all_checked false log ≡ true
      → Verdict log (n + 1) (force (logged d) n (w, log))
  unfolding force
  force-Verdict zero w log c = shifted log log 1 (0 + 1) (omega arith) (last_resort-Verdict w log c)
  force-Verdict (suc n) w log c =
      let tried = terminated (d.terminate w).0 ∷ log in
      let check = d.pid_exists (d.sleep (d.terminate w).1) in
      let l = checked check.0 ∷ tried in
      after_check check.0 check.1 tried log (suc n + 1) [] _ (omega arith) c
        (λ e. shifted l log (n + 1) (suc n + 1) (omega arith) (force-Verdict n check.1 l c))

  -- A kill tries at most three times to end the process, checks whether the process is gone after
  -- each of these tries and after a close before the next action, and reports success
  -- exactly when its last check found the process gone; a failure comes after three tries, with the
  -- reason that the output of the last one gives.
  pub verify_and_kill_pid-Verdict : (w : W) → Verdict [] 3 (verify_and_kill_pid (logged d) (w, []))
  unfolding verify_and_kill_pid
  verify_and_kill_pid-Verdict w =
      let check = d.pid_exists w in
      let l = checked check.0 ∷ [] in
      after_check check.0 check.1 [] [] 3 (codes "AlreadyExited") _ (omega arith) refl
        (λ e. shifted l [] 3 3 refl (force-Verdict 2 check.1 l refl))
