-- ===== src/Tests/Alert.antt =====
-- The theorems on alerts at concrete samples.
use librawatch.Common.{
  ℕ, ◌≤◌, Text, codes, text_eq, Bool, true, false, count_where, List, [], ◌∷◌, length, ◌≡◌, refl,
  arith,
}
use librawatch.Alert.Metrics.{Alerter, Sample, is_alert, check_all}
use librawatch.Alert.Cooldown.{IsSpaced, check_all-IsSpaced}
use librawatch.Alert.Offline.{AgentStatus, check_offline_agents}
use librawatch.Alert.Once.{is_repeat, check_offline_agents-repeats}

abbrev pc : Text
pc = codes "pc-1"

abbrev quiet : Alerter
quiet = record { alerts = []; consecutive = λ x. 0; kills = [] }

abbrev busy : ℕ → Sample
busy time = record {
  time = time;
  agent_id = pc;
  cpu_over = true;
  ram_over = false;
  cpu_message = [];
  ram_message = [];
  blacklist = [];
  auto_kill_enabled = false;
  processes = [];
}

abbrev hour : List Sample
hour = busy 30 ∷ busy 60 ∷ busy 90 ∷ busy 120 ∷ busy 150 ∷ busy 180 ∷ busy 2000 ∷ []

abbrev never_like : Text → Text → Bool
never_like app message = false

check_all-IsSpaced_example :
    IsSpaced (is_alert pc (codes "cpu_high")) (check_all never_like hour quiet).alerts
    × IsSpaced (is_alert pc (codes "ram_high")) (check_all never_like hour quiet).alerts
check_all-IsSpaced_example = check_all-IsSpaced never_like hour quiet pc tt tt

-- The third sample alerts, and then the one after the cooldown.
check_all_test : length (check_all never_like hour quiet).alerts ≡ 2
unfolding check_all text_eq
check_all_test = refl

abbrev away : AgentStatus
away = record { id = pc; status = codes "offline"; last_seen = 100; message = [] }

check_offline_agents-repeats_example :
    count_where (is_repeat pc 100) (check_offline_agents 1000 5 (away ∷ away ∷ []) quiet).alerts ≤ 1
unfolding count_where
check_offline_agents-repeats_example =
    check_offline_agents-repeats pc 100 1000 5 (away ∷ away ∷ []) quiet
      ((λ e. refl), ((λ e. refl), tt)) (omega arith)
