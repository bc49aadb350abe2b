-- ===== src/Alert/Once.antt =====
-- A disconnect alerts once.
use librawatch.Common.{
  ℕ, ◌-◌, ◌*◌, ◌≤◌, Text, codes, text_eq, text_eq_sound, Bool, true, false, not, ◌&&◌, ◌||◌, ltb,
  ◌≡◌, refl, if◌then◌else◌, if_rule, Option, none, some, List, [], ◌∷◌, All, count_where,
  count_where_zero, arith, subst,
}
use librawatch.Alert.Metrics.{AlertRow, Alerter, is_alert, newer, latest, get_last_alert, fire}
use librawatch.Alert.Offline.{AgentStatus, is_after, check_offline_agent, check_offline_agents}

-- An offline alert of an agent from after it was last seen.
abbrev pub is_repeat : Text → ℕ → AlertRow → Bool
is_repeat agent seen a = is_alert agent (codes "offline") a && ltb seen a.sent_at

newer-is_after :
    (seen : ℕ) (a : AlertRow) (o : Option AlertRow)
    → is_after seen (some (newer a o)) ≡ false
    → (ltb seen a.sent_at ≡ false) × (is_after seen o ≡ false)
newer-is_after seen a none h = ground arith
newer-is_after seen a (some b) h = ground arith

-- Where the latest alert is not from after the time, none is.
latest-is_after :
    (p : AlertRow → Bool) (seen : ℕ) (rows : List AlertRow)
    → is_after seen (latest p rows) ≡ false
    → All (λ a. (p a && ltb seen a.sent_at) ≡ false) rows
unfolding latest
latest-is_after p seen [] h = tt
latest-is_after p seen (a ∷ rows) h = split (p a) h (λ e. latest-is_after p seen rows e)
  where
    Early : Option AlertRow → Type 0
    Early o = is_after seen o ≡ false

    split :
        (b : Bool)
        → Early (if b then some (newer a (latest p rows)) else latest p rows)
        → (Early (latest p rows) → All (λ c. (p c && ltb seen c.sent_at) ≡ false) rows)
        → ((b && ltb seen a.sent_at) ≡ false) × All (λ c. (p c && ltb seen c.sent_at) ≡ false) rows
    split true h k = let (l, m) = newer-is_after seen a (latest p rows) h in (l, k m)
    split false h k = (refl, k h)

module _ (x : Text) (seen : ℕ) where
  -- How often the disconnect was alerted.
  abbrev repeats : Alerter → ℕ
  repeats s = count_where (is_repeat x seen) s.alerts

  fire-repeats :
      (now : ℕ) (id message : Text) (s : Alerter)
      → repeats s ≤ 1
      → (text_eq id x ≡ true → repeats s ≡ 0)
      → repeats (fire now id (codes "offline") message s) ≤ 1
  unfolding fire count_where is_alert
  fire-repeats now id message s h z = ground arith

  check_offline_agent-repeats :
      (now minutes : ℕ) (a : AgentStatus) (s : Alerter)
      → (text_eq a.id x ≡ true → a.last_seen ≡ seen)
      → repeats s ≤ 1
      → repeats (check_offline_agent now minutes a s) ≤ 1
  unfolding check_offline_agent get_last_alert
  check_offline_agent-repeats now minutes a s same h =
      let fired = fire now a.id (codes "offline") a.message s in
      if_rule (λ t. repeats t ≤ 1)
        (not (text_eq a.status (codes "offline")) || not (ltb a.last_seen (now - minutes * 60))) s
        (if is_after a.last_seen (get_last_alert a.id (codes "offline") s) then s else fired)
        (λ _. h)
        (λ _.
          if_rule (λ t. repeats t ≤ 1)
            (is_after a.last_seen (get_last_alert a.id (codes "offline") s)) s fired (λ _. h)
            (λ e. fire-repeats now a.id a.message s h (λ q. unseen e q)))
    where
      unseen :
          is_after a.last_seen (get_last_alert a.id (codes "offline") s) ≡ false
          → text_eq a.id x ≡ true
          → repeats s ≡ 0
      unseen e q = count_where_zero (is_repeat x seen) s.alerts (
          latest-is_after (is_alert x (codes "offline")) seen s.alerts (
            subst (λ l. is_after l (latest (is_alert x (codes "offline")) s.alerts) ≡ false)
              (same q)
              (subst
                (λ i. is_after a.last_seen (latest (is_alert i (codes "offline")) s.alerts) ≡ false)
                (text_eq_sound a.id x q) e)))

  -- However often the check runs while an agent is away, one disconnect is alerted at most once:
  -- at most one offline alert of the agent is from after the time it was last seen, if the list of
  -- agents gives that time wherever it names the agent.
  pub check_offline_agents-repeats :
      (now minutes : ℕ) (agents : List AgentStatus) (s : Alerter)
      → All (λ a. text_eq a.id x ≡ true → a.last_seen ≡ seen) agents
      → count_where (is_repeat x seen) s.alerts ≤ 1
      → count_where (is_repeat x seen) (check_offline_agents now minutes agents s).alerts ≤ 1
  unfolding check_offline_agents
  check_offline_agents-repeats now minutes [] s same h = h
  check_offline_agents-repeats now minutes (a ∷ agents) s same h =
      check_offline_agents-repeats now minutes agents (check_offline_agent now minutes a s) same.1
        (check_offline_agent-repeats now minutes a s same.0 h)
