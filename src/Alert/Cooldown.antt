-- ===== src/Alert/Cooldown.antt =====
-- How often a threshold alerts.
use librawatch.Common.{
  ℕ, ◌+◌, ◌≤◌, Text, codes, text_eq, Bool, true, false, ◌&&◌, leb, ◌≡◌, refl, if◌then◌else◌,
  if_rule, Option, none, some, List, [], ◌∷◌, subst, text_eq_sound, All, arith, any, equal_fold,
}
use librawatch.Alert.Metrics.{
  cpu_ram_cooldown, consecutive_required, AlertRow, Alerter, is_alert, newer, latest,
  get_last_alert, has_cooled, set_consecutive, counter_key, fire, fire_if_cooled, check_threshold,
  Observed, auto_kill, report_blacklisted, check_process, check_processes, Sample, check_metrics,
  check_all, get_last_alert_for_app, blacklist_cooldown,
}

-- Of the rows that pass a test, each was sent at least the cooldown after all those below it.
abbrev pub IsSpaced : (AlertRow → Bool) → List AlertRow → Type 0
IsSpaced p [] = Unit
IsSpaced p (a ∷ rows) =
    (p a ≡ true → All (λ b. p b ≡ true → b.sent_at + cpu_ram_cooldown ≤ a.sent_at) rows)
    × IsSpaced p rows

cooled_newer :
    (now : ℕ) (a : AlertRow) (o : Option AlertRow)
    → has_cooled now cpu_ram_cooldown (some (newer a o)) ≡ true
    → (a.sent_at + cpu_ram_cooldown ≤ now) × (has_cooled now cpu_ram_cooldown o ≡ true)
unfolding has_cooled
cooled_newer now a none h = ground arith
cooled_newer now a (some b) h = ground arith

latest-All :
    (p : AlertRow → Bool) (now : ℕ) (rows : List AlertRow)
    → has_cooled now cpu_ram_cooldown (latest p rows) ≡ true
    → All (λ b. p b ≡ true → b.sent_at + cpu_ram_cooldown ≤ now) rows
unfolding latest
latest-All p now [] h = tt
latest-All p now (a ∷ rows) h = split (p a) h (λ e. latest-All p now rows e)
  where
    Cooled : Option AlertRow → Type 0
    Cooled o = has_cooled now cpu_ram_cooldown o ≡ true

    split :
        (b : Bool)
        → Cooled (if b then some (newer a (latest p rows)) else latest p rows)
        → (Cooled (latest p rows) → All (λ c. p c ≡ true → c.sent_at + cpu_ram_cooldown ≤ now) rows)
        → (b ≡ true → a.sent_at + cpu_ram_cooldown ≤ now)
          × All (λ c. p c ≡ true → c.sent_at + cpu_ram_cooldown ≤ now) rows
    split true h k = let (l, m) = cooled_newer now a (latest p rows) h in (λ _. l, k m)
    split false h k = (λ e. cc, k h)

module _ (x ty : Text) where
  abbrev is_kind : AlertRow → Bool
  is_kind = is_alert x ty

  alert_parts :
      (agent type message : Text) (now : ℕ)
      → is_alert x ty (record { agent_id = agent; type = type; message = message; sent_at = now })
        ≡ true
      → (text_eq agent x ≡ true) × (text_eq type ty ≡ true)
  unfolding is_alert
  alert_parts agent type message now m = both_true (text_eq agent x) (text_eq type ty) m
    where
      both_true : (a b : Bool) → (a && b) ≡ true → (a ≡ true) × (b ≡ true)
      both_true true b h = (refl, h)
      both_true false b h = cc

  fire_if_cooled-IsSpaced :
      (now : ℕ) (agent kind type message : Text) (s : Alerter)
      → IsSpaced is_kind s.alerts
      → IsSpaced is_kind (fire_if_cooled now agent kind type message s).alerts
  unfolding fire_if_cooled fire get_last_alert set_consecutive
  fire_if_cooled-IsSpaced now agent kind type message s k =
      if_rule (λ (t : Alerter). IsSpaced is_kind t.alerts)
        (has_cooled now cpu_ram_cooldown (get_last_alert agent type s)) _ s (λ e. (spaced e, k))
        (λ _. k)
    where
      spaced :
          has_cooled now cpu_ram_cooldown (latest (is_alert agent type) s.alerts) ≡ true
          → is_alert x ty
              (record { agent_id = agent; type = type; message = message; sent_at = now })
            ≡ true
          → All (λ b. is_alert x ty b ≡ true → b.sent_at + cpu_ram_cooldown ≤ now) s.alerts
      spaced e m =
          let (p, q) = alert_parts agent type message now m in
          latest-All (is_alert x ty) now s.alerts (
            subst (λ t. has_cooled now cpu_ram_cooldown (latest (is_alert x t) s.alerts) ≡ true)
              (text_eq_sound type ty q)
              (subst
                (λ g. has_cooled now cpu_ram_cooldown (latest (is_alert g type) s.alerts) ≡ true)
                (text_eq_sound agent x p) e))

  check_threshold-IsSpaced :
      (now : ℕ) (agent kind type message : Text) (over : Bool) (s : Alerter)
      → IsSpaced is_kind s.alerts
      → IsSpaced is_kind (check_threshold now agent kind type message over s).alerts
  unfolding check_threshold set_consecutive
  check_threshold-IsSpaced now agent kind type message over s k =
      if_rule (λ (t : Alerter). IsSpaced is_kind t.alerts) over _ _
        (λ _.
          if_rule (λ (t : Alerter). IsSpaced is_kind t.alerts)
            (leb consecutive_required (s.consecutive (counter_key agent kind) + 1)) _ _
            (λ _. fire_if_cooled-IsSpaced now agent kind type message _ k) (λ _. k))
        (λ _. k)

  module _ (other : text_eq (codes "blacklisted_app") ty ≡ false) (like : Text → Text → Bool) where
    report_blacklisted-IsSpaced :
        (now : ℕ) (agent : Text) (p : Observed) (s : Alerter)
        → IsSpaced is_kind s.alerts
        → IsSpaced is_kind (report_blacklisted like now agent p s).alerts
    unfolding report_blacklisted fire
    report_blacklisted-IsSpaced now agent p s k =
        if_rule (λ (t : Alerter). IsSpaced is_kind t.alerts)
          (has_cooled now blacklist_cooldown (get_last_alert_for_app like agent p.name s)) _ s
          (λ _. (λ m. absurd (unfold is_alert in not_both (text_eq agent x) m), k)) (λ _. k)
      where
        not_both : (a : Bool) → (a && text_eq (codes "blacklisted_app") ty) ≡ true → ⊥
        not_both true m = cc
        not_both false m = cc

    check_processes-IsSpaced :
        (now : ℕ) (agent : Text) (blacklist : List Text) (on : Bool) (ps : List Observed)
        (s : Alerter)
        → IsSpaced is_kind s.alerts
        → IsSpaced is_kind (check_processes like now agent blacklist on ps s).alerts
    unfolding check_processes check_process auto_kill
    check_processes-IsSpaced now agent blacklist on [] s k = k
    check_processes-IsSpaced now agent blacklist on (p ∷ ps) s k =
        check_processes-IsSpaced now agent blacklist on ps _ (
          if_rule (λ (t : Alerter). IsSpaced is_kind t.alerts)
            (any (λ b. equal_fold p.name b) blacklist) _ s
            (λ _. report_blacklisted-IsSpaced now agent p s k) (λ _. k))

    check_all-kind :
        (ms : List Sample) (s : Alerter)
        → IsSpaced is_kind s.alerts
        → IsSpaced is_kind (check_all like ms s).alerts
    unfolding check_all check_metrics
    check_all-kind [] s k = k
    check_all-kind (m ∷ ms) s k =
        let c =
          check_threshold m.time m.agent_id (codes "cpu") (codes "cpu_high") m.cpu_message
            m.cpu_over s in
        let r =
          check_threshold m.time m.agent_id (codes "ram") (codes "ram_high") m.ram_message
            m.ram_over c in
        check_all-kind ms (check_metrics like m s) (
          check_processes-IsSpaced m.time m.agent_id m.blacklist m.auto_kill_enabled m.processes r (
            check_threshold-IsSpaced m.time m.agent_id (codes "ram") (codes "ram_high")
              m.ram_message m.ram_over c
              (check_threshold-IsSpaced m.time m.agent_id (codes "cpu") (codes "cpu_high")
                m.cpu_message m.cpu_over s k)))

-- Whatever metrics come in, from whichever agents and in whatever order of their times, two CPU
-- alerts of an agent are at least thirty minutes apart, and so are two RAM alerts.
pub check_all-IsSpaced :
    (like : Text → Text → Bool) (ms : List Sample) (s : Alerter) (x : Text)
    → IsSpaced (is_alert x (codes "cpu_high")) s.alerts
    → IsSpaced (is_alert x (codes "ram_high")) s.alerts
    → IsSpaced (is_alert x (codes "cpu_high")) (check_all like ms s).alerts
      × IsSpaced (is_alert x (codes "ram_high")) (check_all like ms s).alerts
check_all-IsSpaced like ms s x c r = (
  check_all-kind x (codes "cpu_high") (unfold text_eq in refl) like ms s c,
  check_all-kind x (codes "ram_high") (unfold text_eq in refl) like ms s r,
)
