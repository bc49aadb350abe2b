-- ===== src/Command/Counts.antt =====
-- The progress that is reported, against the rows.
use librawatch.Common.{
  codes, text_eq, not, ◌||◌, fun_ext, ap, subst, sym, text_eq_sound, if◌then◌else◌, ℕ, ◌+◌, Text,
  length, find, count_where, Bool, true, false, Option, none, some, List, [], ◌∷◌, ◌≡◌, ◌∙◌, refl,
  arith,
}
use librawatch.Deploy.Model.{Status, other, is_pending, is_running, Row, Db, Job}
use librawatch.Deploy.Store.{get_deploy_results_by_job_id, get_deploy_job_by_id}
use librawatch.Command.Create.{RequestRow}
use librawatch.Command.Progress.{
  CommandProgress, CommandStatus, RowCase, waits, runs, succeeds, fails, row_case, count_row,
  count_rows, command_status, no_progress, get_command_request, status_of, handle_get_command,
}

abbrev pub is_other : Text → Status → Bool
is_other t (other s) = text_eq s t
is_other t _ = false

-- What a status means: a row waits, or is deferred by its agent; it runs; it succeeded, in the
-- server's word or an agent's; any other has failed.
abbrev pub is_waiting : Row → Bool
is_waiting r = is_pending r.status || is_other (codes "deferred") r.status

abbrev pub is_at_work : Row → Bool
is_at_work r = is_running r.status

abbrev pub is_success : Status → Bool
is_success Status.success = true
is_success _ = false

abbrev pub has_succeeded : Row → Bool
has_succeeded r = is_success r.status || is_other (codes "ok") r.status

abbrev pub has_failed : Row → Bool
has_failed r = not (is_waiting r || is_at_work r || has_succeeded r)

abbrev pub output_of : Option Row → Option Text
output_of none = none
output_of (some r) = some r.output

-- The numbers are the counts of the rows, which add up to the total, and the error is the output
-- of the first row that failed.
pub record Reports (rows : List Row) (p : CommandProgress) (e : Option Text) : Type 0 where
  pub all_rows : p.total ≡ length rows
  pub adds_up : p.pending + p.dispatched + p.succeeded + p.failed ≡ p.total
  pub counts_pending : p.pending ≡ count_where is_waiting rows
  pub counts_dispatched : p.dispatched ≡ count_where is_at_work rows
  pub counts_succeeded : p.succeeded ≡ count_where has_succeeded rows
  pub counts_failed : p.failed ≡ count_where has_failed rows
  pub is_first_error : e ≡ output_of (find has_failed rows)

-- The cases of the loop as tests on rows.
abbrev is_waits : RowCase → Bool
is_waits waits = true
is_waits _ = false

abbrev case_waits : Row → Bool
case_waits r = is_waits (row_case r.status)

abbrev is_runs : RowCase → Bool
is_runs runs = true
is_runs _ = false

abbrev case_runs : Row → Bool
case_runs r = is_runs (row_case r.status)

abbrev is_succeeds : RowCase → Bool
is_succeeds succeeds = true
is_succeeds _ = false

abbrev case_succeeds : Row → Bool
case_succeeds r = is_succeeds (row_case r.status)

abbrev is_fails : RowCase → Bool
is_fails fails = true
is_fails _ = false

abbrev case_fails : Row → Bool
case_fails r = is_fails (row_case r.status)

-- What the loop has still to add.
abbrev Adds : List Row → CommandProgress × Option Text → CommandProgress × Option Text → Type 0
Adds rows (p, e) (p', e') =
    (p'.total ≡ p.total)
    × (p'.pending ≡ p.pending + count_where case_waits rows)
    × (p'.dispatched ≡ p.dispatched + count_where case_runs rows)
    × (p'.succeeded ≡ p.succeeded + count_where case_succeeds rows)
    × (p'.failed ≡ p.failed + count_where case_fails rows)

-- One row, by its case.
row-Adds :
    (r : Row) (rows : List Row) (p : CommandProgress) (e : Option Text) (k : RowCase)
    (x : CommandProgress × Option Text)
    → row_case r.status ≡ k
    → Adds rows (count_row k r.output (p, e)) x
    → Adds (r ∷ rows) (p, e) x
unfolding count_row count_where
row-Adds r rows p e waits x h (t, a, b, c, d) =
    rw h (t, (omega (arith, a)), (omega (arith, b)), (omega (arith, c)), (omega (arith, d)))
row-Adds r rows p e runs x h (t, a, b, c, d) =
    rw h (t, (omega (arith, a)), (omega (arith, b)), (omega (arith, c)), (omega (arith, d)))
row-Adds r rows p e succeeds x h (t, a, b, c, d) =
    rw h (t, (omega (arith, a)), (omega (arith, b)), (omega (arith, c)), (omega (arith, d)))
row-Adds r rows p e fails x h (t, a, b, c, d) =
    rw h (t, (omega (arith, a)), (omega (arith, b)), (omega (arith, c)), (omega (arith, d)))

count_rows-Adds :
    (rows : List Row) (acc : CommandProgress × Option Text) → Adds rows acc (count_rows rows acc)
unfolding count_rows count_where
count_rows-Adds [] (p, e) = (refl, (omega arith), (omega arith), (omega arith), (omega arith))
count_rows-Adds (r ∷ rows) (p, e) =
    row-Adds r rows p e (row_case r.status)
      (count_rows rows (count_row (row_case r.status) r.output (p, e))) refl
      (count_rows-Adds rows (count_row (row_case r.status) r.output (p, e)))

abbrev or_error : Option Text → Option Text → Option Text
or_error (some e) found = some e
or_error none found = found

-- The error after one row, by its case.
row-error :
    (r : Row) (rows : List Row) (p : CommandProgress) (e : Option Text) (k : RowCase)
    → row_case r.status ≡ k
    → or_error (count_row k r.output (p, e)).1 (output_of (find case_fails rows))
      ≡ or_error e (output_of (find case_fails (r ∷ rows)))
unfolding count_row find
row-error r rows p e waits h = rw (h, output_of) refl
row-error r rows p e runs h = rw (h, output_of) refl
row-error r rows p e succeeds h = rw (h, output_of) refl
row-error r rows p none fails h = rw (h, output_of) refl
row-error r rows p (some x) fails h = refl

count_rows-error :
    (rows : List Row) (acc : CommandProgress × Option Text)
    → (count_rows rows acc).1 ≡ or_error acc.1 (output_of (find case_fails rows))
unfolding count_rows find
count_rows-error [] (p, none) = refl
count_rows-error [] (p, some e) = refl
count_rows-error (r ∷ rows) (p, e) =
    count_rows-error rows (count_row (row_case r.status) r.output (p, e))
    ∙ row-error r rows p e (row_case r.status) refl

abbrev sum_of_cases : List Row → ℕ
sum_of_cases rows =
    count_where case_waits rows
    + count_where case_runs rows
    + count_where case_succeeds rows
    + count_where case_fails rows

one_case :
    (r : Row) (rows : List Row) (k : RowCase)
    → row_case r.status ≡ k
    → sum_of_cases (r ∷ rows) ≡ sum_of_cases rows + 1
unfolding count_where
one_case r rows waits h = rw h (omega arith)
one_case r rows runs h = rw h (omega arith)
one_case r rows succeeds h = rw h (omega arith)
one_case r rows fails h = rw h (omega arith)

cases_add_up : (rows : List Row) → sum_of_cases rows ≡ length rows
unfolding count_where
cases_add_up [] = refl
cases_add_up (r ∷ rows) = omega (arith, one_case r rows (row_case r.status) refl, cases_add_up rows)

-- Each case of the loop is what the status means.
tests_agree :
    (s : Status)
    → (is_waits (row_case s) ≡ (is_pending s || is_other (codes "deferred") s))
      × (is_runs (row_case s) ≡ is_running s)
      × (is_succeeds (row_case s) ≡ (is_success s || is_other (codes "ok") s))
unfolding row_case text_eq
tests_agree Status.pending = (refl, refl, refl)
tests_agree Status.running = (refl, refl, refl)
tests_agree Status.success = (refl, refl, refl)
tests_agree Status.error = (refl, refl, refl)
tests_agree Status.failed = (refl, refl, refl)
tests_agree Status.expired = (refl, refl, refl)
tests_agree Status.cancelled = (refl, refl, refl)
tests_agree (other t) = by_text (text_eq t (codes "deferred")) (text_eq t (codes "ok")) (λ e.
    let is_deferred : codes "deferred" ≡ t = sym (text_eq_sound _ _ e) in
    subst (λ u. text_eq u (codes "ok") ≡ false) is_deferred refl)
  where
    by_text :
        (d k : Bool)
        → (d ≡ true → k ≡ false)
        → (is_waits (if d then waits else if k then succeeds else fails) ≡ d)
          × (is_runs (if d then waits else if k then succeeds else fails) ≡ false)
          × (is_succeeds (if d then waits else if k then succeeds else fails) ≡ k)
    by_text true k h = (refl, refl, sym (h refl))
    by_text false true h = (refl, refl, refl)
    by_text false false h = (refl, refl, refl)

fails_rest : (k : RowCase) → is_fails k ≡ not (is_waits k || is_runs k || is_succeeds k)
fails_rest waits = refl
fails_rest runs = refl
fails_rest succeeds = refl
fails_rest fails = refl

fails_agree : (r : Row) → case_fails r ≡ has_failed r
fails_agree r =
    let (a, b, c) = tests_agree r.status in fails_rest (row_case r.status) ∙ (rw (a, b, c) refl)

count_rows-Reports :
    (rows : List Row)
    → Reports rows
        (count_rows rows (no_progress (length rows), none)).0
        (count_rows rows (no_progress (length rows), none)).1
count_rows-Reports rows =
    let (t, w, d, g, f) = count_rows-Adds rows (no_progress (length rows), none) in
    record {
      all_rows = t;
      adds_up = omega (arith, t, w, d, g, f, cases_add_up rows);
      counts_pending =
          omega (arith, w) ∙ same case_waits is_waiting (λ r. (tests_agree r.status).0);
      counts_dispatched =
          omega (arith, d) ∙ same case_runs is_at_work (λ r. (tests_agree r.status).1);
      counts_succeeded =
          omega (arith, g) ∙ same case_succeeds has_succeeded (λ r. (tests_agree r.status).2);
      counts_failed = omega (arith, f) ∙ same case_fails has_failed fails_agree;
      is_first_error =
          count_rows-error rows (no_progress (length rows), none)
          ∙ ap (λ p. output_of (find p rows)) (fun_ext fails_agree);
    }
  where
    same : (p q : Row → Bool) → ((r : Row) → p r ≡ q r) → count_where p rows ≡ count_where q rows
    same p q h = ap (λ t. count_where t rows) (fun_ext h)

abbrev pub ReportsTo : Option CommandStatus → Type 0
ReportsTo none = Unit
ReportsTo (some c) = Reports c.results c.progress c.error

-- Whatever the tables hold, the progress that is reported of a command counts the rows that it is
-- reported with: those that are pending or deferred, that run, that report success or ok, and the
-- rest as failed, which add up to the total; and the error is the output of the first row that failed, and absent when none did.
pub handle_get_command-Reports :
    (db : Db) (requests : List RequestRow) (id : Text)
    → ReportsTo (handle_get_command db requests id)
unfolding handle_get_command
handle_get_command-Reports db requests id =
    split (get_deploy_job_by_id id db) (get_command_request id requests)
  where
    split : (j : Option Job) (q : Option RequestRow) → ReportsTo (status_of db j q)
    split none q = tt
    split (some job) none = tt
    split (some job) (some meta) =
        unfold command_status in count_rows-Reports (get_deploy_results_by_job_id job.id db)
