-- ===== src/Kill/Targets.antt =====
-- Which processes killByIdentity ends.
use librawatch.Common.{
  ℕ, Text, text_eq, text_eq_sound, equal_fold, Bool, true, false, not, ◌&&◌, ◌≡◌, refl, ◌⊎◌, inl,
  inr, if_rule, ltb, subst, if◌then◌else◌, Option, none, some, List, [], ◌∷◌, All, Bool-cases,
  arith,
}
use librawatch.Kill.Verify.{KillResult}
use librawatch.Kill.Identity.{
  Machine, KillOutcome, Sweep, is_named, is_made_by, no_sweep, kill_if_matches, visit, counted,
  skip, sweep_processes, swept, targeted_or_swept, kill_by_identity,
}

-- The same machine, with the PIDs that a kill was tried on, each with the state in which it began.
abbrev pub recorded : {W : Type 0} → Machine W → Machine (W × List (ℕ × W))
recorded m = record {
  exists = λ pid s. m.exists pid s.0;
  processes = λ s. m.processes s.0;
  name_of = λ pid s. m.name_of pid s.0;
  exe_of = λ pid s. m.exe_of pid s.0;
  company_name = λ path s. m.company_name path s.0;
  verified_kill_by_pid =
      λ pid s. let (r, w) = m.verified_kill_by_pid pid s.0 in (r, (w, (pid, s.0) ∷ s.1));
}

module _ {W : Type 0} (m : Machine W) (proc_name company : Text) where
  -- When the kill began, the process with this PID had the name, and its executable was made by the
  -- company where one is expected.
  abbrev pub IsJustified : ℕ × W → Type 0
  IsJustified (pid, w) =
      ((name : Text) × (m.name_of pid w ≡ some name) × (equal_fold name proc_name ≡ true))
      × ((company ≡ [])
          ⊎ ((path : Text) × (m.exe_of pid w ≡ some path)
              × (equal_fold (m.company_name path w) company ≡ true)))

  -- The two checks that come before every kill.
  justified :
      (pid : ℕ) (w : W)
      → not (is_named proc_name (m.name_of pid w)) ≡ false
      → (not (text_eq company []) && not (is_made_by m proc_name company (m.exe_of pid w) w))
        ≡ false
      → IsJustified (pid, w)
  justified pid w n c = (named (m.name_of pid w) refl n, made (Bool-cases (text_eq company [])))
    where
      named :
          (o : Option Text)
          → m.name_of pid w ≡ o
          → not (is_named proc_name o) ≡ false
          → (name : Text) × (m.name_of pid w ≡ some name) × (equal_fold name proc_name ≡ true)
      named none e h = let impossible : true ≡ false = unfold is_named in h in cc
      named (some name) e h = (name, e, (unfold is_named in ground arith))

      by_company :
          (o : Option Text)
          → m.exe_of pid w ≡ o
          → not (is_made_by m proc_name company o w) ≡ false
          → (path : Text) × (m.exe_of pid w ≡ some path)
            × (equal_fold (m.company_name path w) company ≡ true)
      by_company none e h = let impossible : true ≡ false = unfold is_made_by in h in cc
      by_company (some path) e h = (path, e, (unfold is_made_by in ground arith))

      made :
          (text_eq company [] ≡ true) ⊎ (text_eq company [] ≡ false)
          → (company ≡ [])
            ⊎ ((path : Text) × (m.exe_of pid w ≡ some path)
                × (equal_fold (m.company_name path w) company ≡ true))
      made (inl b) = inl (text_eq_sound _ _ b)
      made (inr b) = inr (by_company (m.exe_of pid w) refl (ground arith))

  -- Writing down the kills changes no check.
  made_same :
      (o : Option Text) (s : W × List (ℕ × W))
      → is_made_by (recorded m) proc_name company o s ≡ is_made_by m proc_name company o s.0
  unfolding is_made_by
  made_same none s = refl
  made_same (some path) s = refl

  -- The check of the company, and that it fails.
  abbrev fails_company : ℕ → W × List (ℕ × W) → Bool
  fails_company pid s =
      not (text_eq company [])
      && not (is_made_by (recorded m) proc_name company (m.exe_of pid s.0) s)

  refused_same :
      (pid : ℕ) (s : W × List (ℕ × W))
      → fails_company pid s ≡ false
      → (not (text_eq company []) && not (is_made_by m proc_name company (m.exe_of pid s.0) s.0))
        ≡ false
  refused_same pid s h =
      subst (λ b. (not (text_eq company []) && not b) ≡ false) (made_same (m.exe_of pid s.0) s) h

  visit-All :
      (pid : ℕ) (t : Sweep) (s : W × List (ℕ × W))
      → All IsJustified s.1
      → All IsJustified (visit (recorded m) proc_name company pid t s).1.1
  visit-All pid t s h =
      unfold visit in
      by_checks (not (is_named proc_name (m.name_of pid s.0))) (fails_company pid s) refl refl
    where
      tried : Sweep × (W × List (ℕ × W))
      tried = let (r, w1) = m.verified_kill_by_pid pid s.0 in (counted r t, (w1, (pid, s.0) ∷ s.1))

      by_checks :
          (n c : Bool)
          → not (is_named proc_name (m.name_of pid s.0)) ≡ n
          → fails_company pid s ≡ c
          → All IsJustified (if n then (t, s) else if c then (skip t, s) else tried).1.1
      by_checks true c e f = h
      by_checks false true e f = h
      by_checks false false e f = (justified pid s.0 e (refused_same pid s f), h)

  sweep_processes-All :
      (pids : List ℕ) (t : Sweep) (s : W × List (ℕ × W))
      → All IsJustified s.1
      → All IsJustified (sweep_processes (recorded m) proc_name company pids t s).1.1
  unfolding sweep_processes
  sweep_processes-All [] t s h = h
  sweep_processes-All (pid ∷ pids) t s h = sweep_processes-All pids _ _ (visit-All pid t s h)

  swept-All :
      (w : W) (o : Option (List ℕ))
      → All IsJustified (swept (recorded m) proc_name company o (w, [])).1.1
  unfolding swept
  swept-All w none = tt
  swept-All w (some pids) = sweep_processes-All pids no_sweep (w, []) tt

  targeted-All :
      (pid : ℕ) (w : W)
      → All IsJustified
          (targeted_or_swept
            (recorded m)
            proc_name
            company
            (kill_if_matches (recorded m) proc_name company pid (w, []))
            (w, [])).1.1
  targeted-All pid w =
      unfold kill_if_matches in
      by_checks (not (m.exists pid w)) (not (is_named proc_name (m.name_of pid w)))
        (fails_company pid (w, [])) refl refl
    where
      tried : KillResult × (W × List (ℕ × W))
      tried = let (r, w1) = m.verified_kill_by_pid pid w in (r, (w1, (pid, w) ∷ []))

      by_checks :
          (x n c : Bool)
          → not (is_named proc_name (m.name_of pid w)) ≡ n
          → fails_company pid (w, []) ≡ c
          → All IsJustified
              (targeted_or_swept
                (recorded m)
                proc_name
                company
                (if x then none else if n then none else if c then none else some tried)
                (w, [])).1.1
      by_checks true n c e f = unfold targeted_or_swept in swept-All w (m.processes w)
      by_checks false true c e f = unfold targeted_or_swept in swept-All w (m.processes w)
      by_checks false false true e f = unfold targeted_or_swept in swept-All w (m.processes w)
      by_checks false false false e f =
          unfold targeted_or_swept in (justified pid w e (refused_same pid (w, []) f), tt)

  -- A kill by identity tries to end no process but one that, when that kill begins, has the given
  -- name and, where a company is given, an executable made by it: also where a PID passed from one
  -- process to another during the kills before it.
  pub kill_by_identity-IsJustified :
      (pid : ℕ) (w : W)
      → All IsJustified (kill_by_identity (recorded m) proc_name company pid (w, [])).1.1
  unfolding kill_by_identity targeted_or_swept
  kill_by_identity-IsJustified pid w =
      if_rule (λ (r : KillOutcome × (W × List (ℕ × W))). All IsJustified r.1.1) (ltb 0 pid) _ _
        (λ e. targeted-All pid w) (λ e. swept-All w (m.processes w))
