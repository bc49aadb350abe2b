-- ===== src/Policy/Choice.antt =====
-- The rule that Evaluate chooses, against what it promises.
use librawatch.Common.{
  ℕ, ◌<◌, true, false, ◌≡◌, refl, sym, ◌⊎◌, inl, inr, if_rule, Option, none, some, List, [], ◌∷◌,
  All, All-of_mem, arith, subst,
}
use mathlib.Core.List.{Memᴰ}
use librawatch.Common.Int.{◌≤ℤ◌}
use librawatch.Policy.Match.{
  Rule, Context, Decision, policy_action_log, match_score, supersedes, consider, choose, decide,
  evaluate,
}
use librawatch.Policy.Ranking.{IsMatch, specificity, match_score_iff}

-- `q` comes after `r`: it sets fewer dimensions, or as many and is not older.
abbrev pub Yields : Rule → Rule → Type 0
Yields r q = (specificity q < specificity r) ⊎ ((specificity q ≡ specificity r) × (r.id ≤ℤ q.id))

-- What a decision on some rules promises.
pub data Decides (rules : List Rule) (ctx : Context) : Decision → Type 0 where
  by_default :
      All (λ q. ¬ IsMatch q ctx) rules
      → Decides rules ctx (record { action = policy_action_log; rule = none })
  by_rule :
      (r : Rule)
      → Memᴰ r rules
      → IsMatch r ctx
      → All (λ q. IsMatch q ctx → Yields r q) rules
      → Decides rules ctx (record { action = r.action; rule = some r })

-- What the loop knows of all rules when `rest` are left.
abbrev Leads : List Rule → Context → List Rule → Option (Rule × ℕ) → Type 0
Leads rules ctx rest none = (q : Rule) → Memᴰ q rules → IsMatch q ctx → Memᴰ q rest
Leads rules ctx rest (some (r, n)) =
    Memᴰ r rules
    × IsMatch r ctx
    × (n ≡ specificity r)
    × ((q : Rule) → Memᴰ q rules → IsMatch q ctx → Memᴰ q rest ⊎ Yields r q)

supersedes-Yields :
    (r : Rule) (n : ℕ) (b : Rule) (k : ℕ)
    → n ≡ specificity r
    → k ≡ specificity b
    → supersedes r n b k ≡ true
    → (q : Rule) → Yields b q
    → Yields r q
unfolding supersedes
supersedes-Yields r n b k s t h q y = ground arith

supersedes-else :
    (r : Rule) (n : ℕ) (b : Rule) (k : ℕ)
    → n ≡ specificity r
    → k ≡ specificity b
    → supersedes r n b k ≡ false
    → Yields b r
unfolding supersedes
supersedes-else r n b k s t h = ground arith

no-IsMatch : (r : Rule) (ctx : Context) → match_score r ctx ≡ none → ¬ IsMatch r ctx
no-IsMatch r ctx e h = cc ((match_score_iff r ctx (specificity r)).1 (h, refl))

Yields-self : (r : Rule) → Yields r r
Yields-self r = inr (refl, omega arith)

module _ (rules : List Rule) (ctx : Context) where
  -- What a rule at the head of the rest leaves to be known of the others.
  passed :
      {P : Rule → Type 0} (r : Rule) (rest : List Rule)
      → ((q : Rule) → Memᴰ q rules → IsMatch q ctx → Memᴰ q (r ∷ rest) ⊎ P q)
      → (IsMatch r ctx → P r)
      → (q : Rule) → Memᴰ q rules
      → IsMatch q ctx
      → Memᴰ q rest ⊎ P q
  passed {P} r rest known here q m h = elim (known q m h) [
    | inl (Memᴰ.head e) ↦ inr (subst P (sym e) (here (subst (λ z. IsMatch z ctx) e h)))
    | inl (Memᴰ.tail t) ↦ inl t
    | inr p ↦ inr p
  ]

  consider-Leads :
      (r : Rule) (rest : List Rule) (best : Option (Rule × ℕ)) (score : Option ℕ)
      → match_score r ctx ≡ score
      → Memᴰ r rules
      → Leads rules ctx (r ∷ rest) best
      → Leads rules ctx rest (consider r score best)
  unfolding consider
  consider-Leads r rest none none e m known = λ q k h.
      elim (passed {P = λ _. ⊥} r rest (λ p l g. inl (known p l g)) (no-IsMatch r ctx e) q k h) [
        | inl t ↦ t
        | inr n ↦ absurd n
      ]
  consider-Leads r rest (some (b, n)) none e m (bm, bh, bn, known) =
      (bm, bh, bn, passed {P = Yields b} r rest known (λ h. absurd (no-IsMatch r ctx e h)))
  consider-Leads r rest none (some n) e m known =
      let (h, s) = (match_score_iff r ctx n).0 e in
      (m, h, s, passed {P = Yields r} r rest (λ q k h'. inl (known q k h')) (λ _. Yields-self r))
  consider-Leads r rest (some (b, k)) (some n) e m (bm, bh, bn, known) =
      let (h, s) = (match_score_iff r ctx n).0 e in
      if_rule (Leads rules ctx rest) (supersedes r n b k) (some (r, n)) (some (b, k))
        (λ w. (
          m,
          h,
          s,
          passed {P = Yields r} r rest (λ q l g. wins n s w q (known q l g)) (λ _. Yields-self r),
        ))
        (λ w. (bm, bh, bn, passed {P = Yields b} r rest known (λ _. loses n s w)))
    where
      wins :
          (n : ℕ)
          → n ≡ specificity r
          → supersedes r n b k ≡ true
          → (q : Rule) → Memᴰ q (r ∷ rest) ⊎ Yields b q
          → Memᴰ q (r ∷ rest) ⊎ Yields r q
      wins n s w q (inl t) = inl t
      wins n s w q (inr y) = inr (supersedes-Yields r n b k s bn w q y)

      loses : (n : ℕ) → n ≡ specificity r → supersedes r n b k ≡ false → Yields b r
      loses n s w = supersedes-else r n b k s bn w

  choose-Leads :
      (rest : List Rule) (best : Option (Rule × ℕ))
      → All (λ q. Memᴰ q rules) rest
      → Leads rules ctx rest best
      → Leads rules ctx [] (choose rest ctx best)
  unfolding choose
  choose-Leads [] best m l = l
  choose-Leads (r ∷ rest) best m l =
      choose-Leads rest (consider r (match_score r ctx) best) m.1
        (consider-Leads r rest best (match_score r ctx) refl m.0 l)

  decide-Decides :
      (best : Option (Rule × ℕ)) → Leads rules ctx [] best → Decides rules ctx (decide best)
  unfolding decide
  decide-Decides none l =
      by_default (All-of_mem (λ q. ¬ IsMatch q ctx) rules (λ q m h. elim (l q m h) [ ]))
  decide-Decides (some (r, n)) (m, h, s, known) =
      by_rule r m h
        (All-of_mem (λ q. IsMatch q ctx → Yields r q) rules (λ q k g. over (known q k g)))
    where
      over : {q : Rule} → Memᴰ q [] ⊎ Yields r q → Yields r q
      over (inl t) = elim t [ ]
      over (inr y) = y

-- Whatever the rules, the decision is the action of a matching rule that no other matching rule
-- exceeds in the number of dimensions it sets, nor equals with a lower ID; it is to log, without
-- a rule, exactly when no rule matches.
pub evaluate-Decides : (rules : List Rule) (ctx : Context) → Decides rules ctx (evaluate rules ctx)
unfolding evaluate
evaluate-Decides rules ctx = decide-Decides rules ctx (choose rules ctx none) (
    choose-Leads rules ctx rules none (All-of_mem (λ q. Memᴰ q rules) rules (λ q m. m))
      (λ q m h. m))
