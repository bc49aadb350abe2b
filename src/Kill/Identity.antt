-- ===== src/Kill/Identity.antt =====
-- killByIdentity of agent/killidentity.go, and enforceLocalPolicy of agent/procwatch.go. What the
-- agent sees of the processes and what a kill does are arguments.
use librawatch.Common.{
  ℕ, ◌+◌, Text, codes, text_eq, equal_fold, Bool, true, false, ◌||◌, ◌&&◌, not, ltb, if◌then◌else◌,
  Option, none, some, List, [], ◌∷◌,
}
use librawatch.Kill.Verify.{KillResult}
use librawatch.Policy.Match.{Decision, policy_action_log}
use librawatch.Policy.Cache.{RelevantApp}

-- Whether NewProcess gives a process for a PID, and the PIDs of Processes; the name and the path
-- of the executable of a process when they are asked for, none where the operating system does not
-- give them; and the company that the version information of a file names.
pub record Machine (W : Type 0) : Type 0 where
  pub exists : ℕ → W → Bool
  pub processes : W → Option (List ℕ)
  pub name_of : ℕ → W → Option Text
  pub exe_of : ℕ → W → Option Text
  pub company_name : Text → W → Text
  pub verified_kill_by_pid : ℕ → W → KillResult × W

unfoldable pub is_named : Text → Option Text → Bool
unfolding equal_fold
is_named proc_name none = false
is_named proc_name (some name) = equal_fold name proc_name

abbrev pub no_result : KillResult
no_result = record { success = false; reason = [] }

-- What the sweep counts: the killed, the skipped, and the last result.
pub record Sweep : Type 0 where
  pub killed : ℕ
  pub skipped : ℕ
  pub last : KillResult

unfoldable pub counted : KillResult → Sweep → Sweep
counted r t = record t { killed = if r.success then t.killed + 1 else t.killed; last = r }

unfoldable pub skip : Sweep → Sweep
skip t = record t { skipped = t.skipped + 1 }

pub record KillOutcome : Type 0 where
  pub result : KillResult
  pub sweep : Sweep
  pub targeted : Bool

abbrev pub no_sweep : Sweep
no_sweep = record { killed = 0; skipped = 0; last = no_result }

module _ {W : Type 0} (m : Machine W) (proc_name company : Text) where
  unfoldable pub is_made_by : Option Text → W → Bool
  unfolding equal_fold
  is_made_by none w = false
  is_made_by (some path) w = equal_fold (m.company_name path w) company

  -- killSpecificPIDIfMatches: the company is checked only where one is expected.
  unfoldable pub kill_if_matches : ℕ → W → Option (KillResult × W)
  unfolding is_named is_made_by text_eq
  kill_if_matches pid w =
      if not (m.exists pid w)
      then none
      else if not (is_named proc_name (m.name_of pid w))
      then none
      else if not (text_eq company []) && not (is_made_by (m.exe_of pid w) w)
      then none
      else some (m.verified_kill_by_pid pid w)

  -- One turn of the sweep.
  unfoldable pub visit : ℕ → Sweep → W → Sweep × W
  unfolding is_named is_made_by counted skip text_eq
  visit pid t w =
      let (r, w1) = m.verified_kill_by_pid pid w in
      if not (is_named proc_name (m.name_of pid w))
      then (t, w)
      else if not (text_eq company []) && not (is_made_by (m.exe_of pid w) w)
      then (skip t, w)
      else (counted r t, w1)

  unfoldable pub sweep_processes : List ℕ → Sweep → W → Sweep × W
  unfolding visit
  sweep_processes [] t w = (t, w)
  sweep_processes (pid ∷ pids) t w = let (t1, w1) = visit pid t w in sweep_processes pids t1 w1

  unfoldable pub swept : Option (List ℕ) → W → KillOutcome × W
  unfolding sweep_processes
  swept none w = (
    record {
      result = record { success = false; reason = codes "Unknown" };
      sweep = no_sweep;
      targeted = false;
    },
    w,
  )
  swept (some pids) w =
      let (t, w1) = sweep_processes pids no_sweep w in
      (record { result = t.last; sweep = t; targeted = false }, w1)

  unfoldable pub targeted_or_swept : Option (KillResult × W) → W → KillOutcome × W
  unfolding swept
  targeted_or_swept (some (r, w1)) w =
      (record { result = r; sweep = no_sweep; targeted = true }, w1)
  targeted_or_swept none w = swept (m.processes w) w

  unfoldable pub kill_by_identity : ℕ → W → KillOutcome × W
  unfolding kill_if_matches targeted_or_swept
  kill_by_identity pid w =
      if ltb 0 pid then targeted_or_swept (kill_if_matches pid w) w else targeted_or_swept none w

-- What enforceLocalPolicy reports, or none when it has nothing to report.
unfoldable pub final_action : Text → KillResult → Text
unfolding text_eq
final_action action r =
    if text_eq action (codes "kill")
    then (if r.success then codes "killed" else codes "log")
    else if text_eq action (codes "block") || text_eq action (codes "delete")
    then codes "blocked"
    else action

unfoldable pub enforce_local_policy :
    {W : Type 0} → Machine W → Text → ℕ → Option (Decision × RelevantApp) → W → Option Text × W
unfolding kill_by_identity final_action text_eq
enforce_local_policy m name pid none w = (none, w)
enforce_local_policy m name pid (some (d, app)) w =
    let (o, w1) = kill_by_identity m name app.company pid w in
    if text_eq d.action policy_action_log
    then (none, w)
    else if text_eq d.action (codes "kill")
    then (some (final_action d.action o.result), w1)
    else (some (final_action d.action no_result), w)
