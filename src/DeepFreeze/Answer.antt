-- ===== src/DeepFreeze/Answer.antt =====
-- The state that the server reports, against the state that DFC.exe reports.
use librawatch.Common.{
  ◌==◌, Text, codes, text_eq, Bool, true, false, if◌then◌else◌, if_rule, none, some, List, [], ◌∷◌,
  ◌++◌, All, ◌≡◌, refl, text_eq_refl, Bool-cases, inl, inr,
}
use librawatch.Deploy.Model.{is_pending_like, parse_status, Row}
use librawatch.Deploy.Report.{truncated}
use librawatch.DeepFreeze.Endpoint.{
  DfcRun, exits, not_run, FrozenQuery, DeepFreezeResult, read_frozen, query_result, query_is_frozen,
  handle_deep_freeze,
}
use librawatch.DeepFreeze.Request.{
  Verdict, Poll, is_answer, first_answer, answer_in, parse_deep_freeze_output,
  poll_deep_freeze_result,
}

-- Exit code 0 is thawed and 1 is frozen, whatever is printed.
abbrev pub reported : DfcRun → Text
reported (not_run error) = codes "error"
reported (exits code out) =
    if code == 0 then codes "thawed" else if code == 1 then codes "frozen" else codes "error"

-- A turn of the loop that sees no result and is not cancelled.
abbrev pub IsSilent : Text → Poll → Type 0
IsSilent agent p = (answer_in agent p.rows ≡ none) × (p.cancelled ≡ false)

poll_silent :
    (agent : Text) (earlier polls : List Poll)
    → All (IsSilent agent) earlier
    → poll_deep_freeze_result agent (earlier ++ polls) ≡ poll_deep_freeze_result agent polls
unfolding poll_deep_freeze_result
poll_silent agent [] polls h = refl
poll_silent agent (p ∷ earlier) polls ((a, c), h) = rw (a, c) (poll_silent agent earlier polls h)

first_answer-skips :
    (agent : Text) (before : List Row) (r : Row) (after : List Row)
    → All (λ q. is_answer agent q ≡ false) before
    → is_answer agent r ≡ true
    → first_answer agent (before ++ r ∷ after) ≡ some (parse_deep_freeze_output r.status r.output)
unfolding first_answer
first_answer-skips agent [] r after h a = rw a refl
first_answer-skips agent (q ∷ before) r after (n, h) a =
    rw n (first_answer-skips agent before r after h a)

-- What is made of a result of the agent once it is stored in a row.
abbrev stored : DeepFreezeResult → Verdict
stored a = parse_deep_freeze_output (parse_status a.status) (truncated a.output)

stored_error :
    (q : FrozenQuery) → q.failed ≡ true → (stored (query_result q)).status ≡ codes "error"
unfolding query_result parse_status parse_deep_freeze_output text_eq
stored_error q h = rw h refl

stored_state :
    (q : FrozenQuery)
    → q.failed ≡ false
    → (stored (query_result q)).status ≡ (if q.frozen then codes "frozen" else codes "thawed")
unfolding query_result parse_status parse_deep_freeze_output text_eq truncated
stored_state q h = elim (Bool-cases q.frozen) [ inl f ↦ rw (h, f) refl | inr t ↦ rw (h, t) refl ]

read_frozen-reported :
    (run : DfcRun) → (stored (query_result (read_frozen run))).status ≡ reported run
unfolding read_frozen
read_frozen-reported (not_run error) = stored_error _ refl
read_frozen-reported (exits code out) =
    if_rule {A = FrozenQuery} (λ q. (stored (query_result q)).status ≡ reported (exits code out))
      (code == 0) _ _ (λ z. rw z (stored_state _ refl))
      (λ n.
        if_rule {A = FrozenQuery}
          (λ q. (stored (query_result q)).status ≡ reported (exits code out)) (code == 1) _ _
          (λ o. rw (n, o) (stored_state _ refl)) (λ m. rw (n, m) (stored_error _ refl)))

query_result_is_final :
    (q : FrozenQuery) → is_pending_like (parse_status (query_result q).status) ≡ false
unfolding query_result parse_status text_eq is_pending_like
query_result_is_final q = elim (Bool-cases q.failed) [ inl f ↦ rw f refl | inr n ↦ rw n refl ]

-- A row that holds what the hub stores of a result of the agent.
pub record Holds (agent : Text) (a : DeepFreezeResult) (r : Row) : Type 0 where
  pub is_own : r.agent_id ≡ agent
  pub has_status : r.status ≡ parse_status a.status
  pub has_output : r.output ≡ truncated a.output

-- The first answer to a query that the server sees, after any number of turns without one, is
-- reported as the state that DFC.exe reported to the agent by its exit code: frozen, thawed, or an
-- error where the code is another or the program did not run.
pub poll-handle_deep_freeze :
    {W : Type 0} (dfc : List Text → W → DfcRun × W) (w : W) (password agent : Text)
    (earlier later : List Poll) (before after : List Row) (r : Row) (cancelled : Bool)
    → Holds agent (handle_deep_freeze dfc true (codes "query_df") password w).0 r
    → All (IsSilent agent) earlier
    → All (λ q. is_answer agent q ≡ false) before
    → (poll_deep_freeze_result agent (
        earlier
        ++ record { rows = some (before ++ r ∷ after); cancelled = cancelled } ∷ later)).status
      ≡ reported (dfc (codes "get" ∷ codes "/ISFROZEN" ∷ []) w).0
poll-handle_deep_freeze dfc w password agent earlier later before after r cancelled holds silent
      none_before =
    rw (poll_silent agent earlier (p ∷ later) silent) answered
  where
    p : Poll
    p = record { rows = some (before ++ r ∷ after); cancelled = cancelled }

    run : DfcRun
    run = (dfc (codes "get" ∷ codes "/ISFROZEN" ∷ []) w).0

    has_status : r.status ≡ parse_status (query_result (read_frozen run)).status
    has_status = unfold handle_deep_freeze query_is_frozen text_eq in holds.has_status

    has_output : r.output ≡ truncated (query_result (read_frozen run)).output
    has_output = unfold handle_deep_freeze query_is_frozen text_eq in holds.has_output

    is_answered : is_answer agent r ≡ true
    is_answered =
        unfold is_answer in
        rw (holds.is_own, has_status, text_eq_refl agent, query_result_is_final (read_frozen run))
          refl

    answered : (poll_deep_freeze_result agent (p ∷ later)).status ≡ reported run
    answered =
        unfold poll_deep_freeze_result in
        rw (first_answer-skips agent before r after none_before is_answered, has_status, has_output)
          (read_frozen-reported run)
