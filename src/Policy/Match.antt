-- ===== src/Policy/Match.antt =====
-- Evaluate and MatchScore of shared/policy.go. A rule that is not chosen yet stands for the
-- loop's best == nil with bestScore -1.
use librawatch.Common.{
  ℕ, suc, Text, codes, text_eq, equal_fold, Bool, true, false, not, ◌||◌, ◌&&◌, ltb, ◌==◌,
  if◌then◌else◌, Option, none, some, List, [], ◌∷◌, is_some,
}
use librawatch.Common.Int.{ℤ, pos_part, neg_part, ltb_ℤ}

pub record Rule : Type 0 where
  pub id : ℤ
  pub name : Text
  pub event_type : Text
  pub category_id : Option ℤ
  pub app_status : Text
  pub file_extension : Text
  pub execution_location : Text
  pub device_group : Text
  pub action : Text
  pub enabled : Bool
  pub created_at : ℕ

pub record Context : Type 0 where
  pub agent_id : Text
  pub device_group : Text
  pub event_type : Text
  pub category_id : Option ℤ
  pub app_status : Text
  pub file_extension : Text
  pub execution_location : Text

pub record Decision : Type 0 where
  pub action : Text
  pub rule : Option Rule

abbrev pub policy_action_log : Text
policy_action_log = codes "log"

abbrev pub is_set : Text → Bool
is_set s = not (text_eq s [])

abbrev pub eq_ℤ : ℤ → ℤ → Bool
eq_ℤ a b = (pos_part a == pos_part b) && (neg_part a == neg_part b)

unfoldable pub same_category : Option ℤ → Option ℤ → Bool
same_category (some a) (some b) = eq_ℤ a b
same_category _ _ = false

-- One dimension: what is set must be equal, and counts. The score is absent once a dimension
-- differed.
unfoldable pub score_dimension : Bool → Bool → Option ℕ → Option ℕ
score_dimension set same none = none
score_dimension false same (some n) = some n
score_dimension true true (some n) = some (suc n)
score_dimension true false (some n) = none

unfoldable pub match_score : Rule → Context → Option ℕ
unfolding score_dimension text_eq equal_fold same_category
match_score r ctx =
    score_dimension (is_set r.device_group) (equal_fold r.device_group ctx.device_group) (
      score_dimension (is_set r.execution_location)
        (equal_fold r.execution_location ctx.execution_location)
        (score_dimension (is_set r.file_extension) (equal_fold r.file_extension ctx.file_extension)
          (score_dimension (is_set r.app_status) (text_eq r.app_status ctx.app_status) (
            score_dimension (is_some r.category_id) (same_category r.category_id ctx.category_id) (
              score_dimension (is_set r.event_type) (text_eq r.event_type ctx.event_type)
                (some 0))))))

unfoldable pub supersedes : Rule → ℕ → Rule → ℕ → Bool
supersedes r score best best_score =
    ltb best_score score || ((score == best_score) && ltb_ℤ r.id best.id)

unfoldable pub consider : Rule → Option ℕ → Option (Rule × ℕ) → Option (Rule × ℕ)
unfolding supersedes
consider r none best = best
consider r (some score) none = some (r, score)
consider r (some score) (some (best, best_score)) =
    if supersedes r score best best_score then some (r, score) else some (best, best_score)

unfoldable pub choose : List Rule → Context → Option (Rule × ℕ) → Option (Rule × ℕ)
unfolding consider match_score
choose [] ctx best = best
choose (r ∷ rs) ctx best = choose rs ctx (consider r (match_score r ctx) best)

unfoldable pub decide : Option (Rule × ℕ) → Decision
decide none = record { action = policy_action_log; rule = none }
decide (some (best, best_score)) = record { action = best.action; rule = some best }

unfoldable pub evaluate : List Rule → Context → Decision
unfolding choose decide
evaluate rules ctx = decide (choose rules ctx none)
