-- ===== src/Tests/Kill.antt =====
-- The theorems on ending a process at a concrete machine.
use librawatch.Common.{
  ℕ, zero, suc, codes, text_eq, Bool, true, false, ◌==◌, if◌then◌else◌, none, some, [], ◌∷◌, All,
  ◌≡◌, refl,
}
use librawatch.Kill.Verify.{KillDeps, verify_and_kill_pid}
use librawatch.Kill.Verdict.{logged, Verdict, verify_and_kill_pid-Verdict}
use librawatch.Kill.Identity.{Machine, kill_by_identity}
use librawatch.Kill.Targets.{recorded, IsJustified, kill_by_identity-IsJustified}

abbrev hits : ℕ → ℕ
hits zero = 0
hits (suc n) = n

-- A process that the given number of attempts ends.
abbrev stubborn : KillDeps ℕ
stubborn = record {
  terminate = λ w. (codes "ERROR: Access is denied.", hits w);
  pid_exists = λ w. (alive w, w);
  graceful_close = λ w. w;
  sleep = λ w. w;
}
  where
    alive : ℕ → Bool
    alive zero = false
    alive (suc n) = true

verify_and_kill_pid-Verdict_example : Verdict [] 3 (verify_and_kill_pid (logged stubborn) (5, []))
verify_and_kill_pid-Verdict_example = verify_and_kill_pid-Verdict stubborn 5

abbrev machine : Machine ℕ
machine = record {
  exists = λ pid w. pid == 40;
  processes = λ w. some (40 ∷ []);
  name_of = λ pid w. if pid == 40 then some (codes "Game.exe") else none;
  exe_of = λ pid w. some (codes "C:\\g.exe");
  company_name = λ path w. codes "Acme";
  verified_kill_by_pid = λ pid w. (record { success = true; reason = [] }, suc w);
}

kill_by_identity-IsJustified_example :
    All
      (IsJustified machine (codes "game.exe") (codes "ACME"))
      (kill_by_identity (recorded machine) (codes "game.exe") (codes "ACME") 41 (0, [])).1.1
kill_by_identity-IsJustified_example =
    kill_by_identity-IsJustified machine (codes "game.exe") (codes "ACME") 41 0

-- The PID is another's by now, and the sweep finds the process.
justified_test :
    (kill_by_identity (recorded machine) (codes "game.exe") (codes "ACME") 41 (0, [])).1.1
    ≡ (40, 0) ∷ []
unfolding kill_by_identity text_eq
justified_test = refl
