-- ===== src/Kill/Verify.antt =====
-- verifyAndKillPID of agent/killverify.go. What the operating system does is the argument `d`,
-- on states of its own; a duration is not kept.
use librawatch.Common.{
  ℕ, zero, suc, Text, codes, text_eq, to_lower, contains, Bool, true, false, ◌||◌, if◌then◌else◌,
  [],
}

pub record KillResult : Type 0 where
  pub success : Bool
  pub reason : Text

pub record KillDeps (W : Type 0) : Type 0 where
  pub terminate : W → Text × W
  pub pid_exists : W → Bool × W
  pub graceful_close : W → W
  pub sleep : W → W

unfoldable pub classify_kill_failure : Text → Text
unfolding to_lower contains text_eq
classify_kill_failure output =
    let s = to_lower output in
    if contains s (codes "access is denied") || contains s (codes "access denied")
    then codes "AccessDenied"
    else if text_eq output []
    then codes "Unknown"
    else codes "VerificationFailed"

abbrev pub ended : Text → KillResult
ended reason = record { success = true; reason = reason }

module _ {W : Type 0} (d : KillDeps W) where
  -- The last attempt.
  unfoldable pub final_attempt : W → KillResult × W
  unfolding classify_kill_failure
  final_attempt w =
      let (output, w1) = d.terminate w in
      let (alive, w2) = d.pid_exists (d.sleep w1) in
      if alive
      then (record { success = false; reason = classify_kill_failure output }, w2)
      else (ended [], w2)

  unfoldable pub last_resort : W → KillResult × W
  unfolding final_attempt
  last_resort w =
      let (alive, w1) = d.pid_exists (d.sleep (d.graceful_close w)) in
      let rest = final_attempt w1 in if alive then rest else (ended [], w1)

  -- The forced attempts that are left, and then what follows the loop.
  unfoldable pub force : ℕ → W → KillResult × W
  unfolding last_resort
  force zero w = last_resort w
  force (suc n) w =
      let (output, w1) = d.terminate w in
      let (alive, w2) = d.pid_exists (d.sleep w1) in
      let rest = force n w2 in if alive then rest else (ended [], w2)

  unfoldable pub verify_and_kill_pid : W → KillResult × W
  unfolding force
  verify_and_kill_pid w =
      let (alive, w1) = d.pid_exists w in
      let rest = force 2 w1 in if alive then rest else (ended (codes "AlreadyExited"), w1)
