-- ===== src/Policy/Ranking.antt =====
-- What a decision promises, and that Evaluate keeps it.
use librawatch.Common.{
  ℕ, ◌+◌, text_eq, equal_fold, Bool, true, false, ◌≡◌, refl, ◌↔◌, Option, none, some, is_some,
  arith,
}
use librawatch.Policy.Match.{Rule, Context, is_set, same_category, score_dimension, match_score}

-- A dimension that is set is equal.
abbrev pub Agrees : Bool → Bool → Type 0
Agrees set same = set ≡ true → same ≡ true

abbrev pub IsMatch : Rule → Context → Type 0
IsMatch r ctx =
    ((((Agrees (is_set r.event_type) (text_eq r.event_type ctx.event_type)
            × Agrees (is_some r.category_id) (same_category r.category_id ctx.category_id))
          × Agrees (is_set r.app_status) (text_eq r.app_status ctx.app_status))
        × Agrees (is_set r.file_extension) (equal_fold r.file_extension ctx.file_extension))
      × Agrees (is_set r.execution_location)
          (equal_fold r.execution_location ctx.execution_location))
    × Agrees (is_set r.device_group) (equal_fold r.device_group ctx.device_group)

abbrev pub one_if : Bool → ℕ
one_if true = 1
one_if false = 0

-- How many dimensions a rule sets.
unfoldable pub specificity : Rule → ℕ
unfolding text_eq
specificity r =
    one_if (is_set r.event_type)
    + one_if (is_some r.category_id)
    + one_if (is_set r.app_status)
    + one_if (is_set r.file_extension)
    + one_if (is_set r.execution_location)
    + one_if (is_set r.device_group)

-- A score that is there exactly under a condition, and is then one number.
abbrev Scores : Option ℕ → Type 0 → ℕ → Type 0
Scores o P k = (n : ℕ) → (o ≡ some n) ↔ (P × (n ≡ k))

score_first :
    (set same : Bool) → Scores (score_dimension set same (some 0)) (Agrees set same) (one_if set)
unfolding score_dimension
score_first false same n = (λ h. ((λ e. cc), ground arith), λ h. ground arith)
score_first true true n = (λ h. ((λ e. refl), ground arith), λ h. ground arith)
score_first true false n = (λ h. cc, λ h. cc (h.0 refl))

score_next :
    (set same : Bool) (o : Option ℕ) (P : Type 0) (k : ℕ)
    → Scores o P k
    → Scores (score_dimension set same o) (P × Agrees set same) (k + one_if set)
unfolding score_dimension
score_next set same none P k s n = (λ h. cc, λ h. cc ((s k).1 (h.0.0, refl)))
score_next false same (some m) P k s n = (
  λ h. let (p, e) = (s m).0 refl in ((p, λ e. cc), ground arith),
  λ h. let e = (s k).1 (h.0.0, refl) in ground arith,
)
score_next true true (some m) P k s n = (
  λ h. let (p, e) = (s m).0 refl in ((p, λ e. refl), ground arith),
  λ h. let e = (s k).1 (h.0.0, refl) in ground arith,
)
score_next true false (some m) P k s n = (λ h. cc, λ h. cc (h.0.1 refl))

-- A rule matches exactly when each dimension that it sets is equal, and its score is then the
-- number of dimensions that it sets.
pub match_score_iff :
    (r : Rule) (ctx : Context) (n : ℕ)
    → (match_score r ctx ≡ some n) ↔ (IsMatch r ctx × (n ≡ specificity r))
unfolding match_score specificity
match_score_iff r ctx n =
    score_next _ _ _ _ _
      (score_next _ _ _ _ _
        (score_next _ _ _ _ _ (score_next _ _ _ _ _ (score_next _ _ _ _ _ (score_first _ _)))))
      n
