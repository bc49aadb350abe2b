-- ===== src/Agent/Retention.antt =====
-- What the store of finished jobs remembers while other jobs finish.
use mathlib.Core.Option
use librawatch.Common.{
  ℕ, ◌+◌, ◌-◌, ◌≤◌, ◌<◌, Text, text_eq, text_eq_refl, text_eq_sound, length, filter, All, find,
  false, not, Option, some, List, [], ◌∷◌, ◌++◌, ◌≡◌, refl, ap, ◌∙◌, subst, arith, Bool-cases, inl,
  inr, if_rule, ◌==◌,
}
use librawatch.Deploy.Report.{Report}
use librawatch.Agent.Completed.{
  CompletedJob, prune_completed_jobs, record_completed_result, completed_job_result,
}
use librawatch.Agent.Entries.{
  NoneAfter, Older, Holds, prune-Holds, filter-Holds, append-Holds, All-prune_completed_jobs,
}

-- A use of the store: a result is stored for a job, or a job is looked up.
pub data StoreUse : Type 0 where
  stores : ℕ → Text → Report → StoreUse
  asks : ℕ → Text → StoreUse

unfoldable pub use_store : List StoreUse → List CompletedJob → List CompletedJob
unfolding record_completed_result completed_job_result
use_store [] store = store
use_store (stores now job r ∷ es) store = use_store es (record_completed_result now job r store)
use_store (asks now job ∷ es) store = use_store es (completed_job_result now job store).1

abbrev pub stored_count : List StoreUse → ℕ
stored_count [] = 0
stored_count (stores now job r ∷ es) = stored_count es + 1
stored_count (asks now job ∷ es) = stored_count es

-- A use within a day from `start`, that stores nothing for the job.
abbrev pub Spares : ℕ → Text → StoreUse → Type 0
Spares start job (stores now k r) = (start ≤ now) × (now - start < 86400) × (text_eq k job ≡ false)
Spares start job (asks now k) = now - start < 86400

text_eq-sym-false : (a b : Text) → text_eq a b ≡ false → text_eq b a ≡ false
text_eq-sym-false a b h = elim (Bool-cases (text_eq b a)) [
  | inr f ↦ f
  | inl t ↦
      let same : b ≡ a = text_eq_sound b a t in
      let mixed : text_eq a a ≡ false = subst (λ x. text_eq a x ≡ false) same h in
      let always = text_eq_refl a in cc
]

record-Holds :
    (now : ℕ) (job : Text) (r : Report) (m : CompletedJob) (c : ℕ) (store : List CompletedJob)
    → m.at ≤ now
    → now - m.at < 86400
    → text_eq job m.job_id ≡ false
    → c + 1 < 256
    → Holds m c store
    → Holds m (c + 1) (record_completed_result now job r store)
unfolding record_completed_result
record-Holds now job r m c store late fresh other few s =
    if_rule (Holds m (c + 1)) (text_eq job []) _ _
      (λ _. record {
        before = s.before;
        behind = s.behind;
        whole = s.whole;
        older = s.older;
        newer = s.newer;
        few = omega (arith, s.few);
      })
      (λ _. prune-Holds now m (c + 1) _ fresh few (
        append-Holds m (record { job_id = job; result = r; at = now }) c _ (late, other)
          (filter-Holds (λ e. not (text_eq e.job_id job)) m c _
            (rw (text_eq-sym-false job m.job_id other) refl)
            (prune-Holds now m c store fresh (omega arith) s))))

asks-Holds :
    (now : ℕ) (job : Text) (m : CompletedJob) (c : ℕ) (store : List CompletedJob)
    → now - m.at < 86400
    → c < 256
    → Holds m c store
    → Holds m c (completed_job_result now job store).1
unfolding completed_job_result
asks-Holds now job m c store fresh few s =
    if_rule (λ (x : Option Report × List CompletedJob). Holds m c x.1) (text_eq job []) _ _ (λ _. s)
      (λ _.
        if_rule (Holds m c) (length (prune_completed_jobs now store) == length store) store
          (prune_completed_jobs now store) (λ _. s) (λ _. prune-Holds now m c store fresh few s))

use_store-Holds :
    (m : CompletedJob) (es : List StoreUse) (c : ℕ) (store : List CompletedJob)
    → All (Spares m.at m.job_id) es
    → c + stored_count es < 256
    → Holds m c store
    → Holds m (c + stored_count es) (use_store es store)
unfolding use_store
use_store-Holds m [] c store h few s = subst (λ n. Holds m n store) (omega arith) s
use_store-Holds m (stores now job r ∷ es) c store ((late, fresh, other), h) few s =
    let e : c + 1 + stored_count es ≡ c + (stored_count es + 1) = omega arith in
    subst (λ n. Holds m n (use_store es (record_completed_result now job r store))) e
      (use_store-Holds m es (c + 1) _ h (omega (arith, few))
        (record-Holds now job r m c store late fresh other (omega (arith, few)) s))
use_store-Holds m (asks now job ∷ es) c store (fresh, h) few s =
    use_store-Holds m es c _ h few (asks-Holds now job m c store fresh (omega (arith, few)) s)

find-Holds :
    (m : CompletedJob) (c : ℕ) (store : List CompletedJob)
    → Holds m c store
    → find (λ e. text_eq e.job_id m.job_id) store ≡ some m
unfolding find
find-Holds m c store s =
    ap (find (λ e. text_eq e.job_id m.job_id)) s.whole ∙ passes s.before s.older
  where
    passes :
        (ys : List CompletedJob)
        → All (Older m) ys
        → find (λ e. text_eq e.job_id m.job_id) (ys ++ m ∷ s.behind) ≡ some m
    passes [] h = rw (text_eq_refl m.job_id)
    passes (y ∷ ys) h = rw h.0.1 (passes ys h.1)

others :
    (m : CompletedJob) (xs : List CompletedJob)
    → NoneAfter m.at xs
    → All (Older m) (filter (λ e. not (text_eq e.job_id m.job_id)) xs)
unfolding filter
others m [] h = tt
others m (x ∷ xs) h = ground (arith, others m xs h.1)

recorded-Holds :
    (now : ℕ) (job : Text) (r : Report) (store : List CompletedJob)
    → text_eq job [] ≡ false
    → NoneAfter now store
    → Holds
        (record { job_id = job; result = r; at = now })
        0
        (record_completed_result now job r store)
unfolding record_completed_result
recorded-Holds now job r store named old =
    let m : CompletedJob = record { job_id = job; result = r; at = now } in
    rw named (
      prune-Holds now m 0 _ (omega arith) (omega arith) (record {
        before = filter (λ e. not (text_eq e.job_id job)) (prune_completed_jobs now store);
        behind = [];
        whole = refl;
        older =
            others m (prune_completed_jobs now store) (All-prune_completed_jobs _ now store old);
        newer = tt;
        few = omega arith;
      }))

-- A result that is stored for a job with an id, when no entry is of a later time, is found again
-- for 24 hours, whatever is looked up in between and whichever results are stored for other jobs,
-- when those are fewer than 256.
pub completed_job_result-record :
    (now later : ℕ) (job : Text) (r : Report) (store : List CompletedJob) (es : List StoreUse)
    → text_eq job [] ≡ false
    → NoneAfter now store
    → All (Spares now job) es
    → stored_count es < 256
    → later - now < 86400
    → (completed_job_result later job (use_store es (record_completed_result now job r store))).0
      ≡ some r
unfolding completed_job_result
completed_job_result-record now later job r store es named old spares few fresh =
    let m : CompletedJob = record { job_id = job; result = r; at = now } in
    let kept : Holds m (0 + stored_count es)
        (use_store es (record_completed_result now job r store)) =
      use_store-Holds m es 0 _ spares (omega (arith, few))
        (recorded-Holds now job r store named old) in
    rw named (
      ap (Option.map (λ (x : CompletedJob). x.result)) (
        find-Holds m (0 + stored_count es) _
          (prune-Holds later m (0 + stored_count es) _ fresh (omega (arith, few)) kept)))
