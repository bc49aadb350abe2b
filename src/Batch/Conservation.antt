-- ===== src/Batch/Conservation.antt =====
-- What becomes of the entries that Add of server/batcher.go accepts.
use librawatch.Common.{
  Bool, true, false, leb, ltb, if◌then◌else◌, if_rule, List, [], ◌∷◌, ◌++◌, length, ◌≡◌, refl, sym,
  ap, ◌∙◌,
}
use librawatch.Batch.Batcher.{
  batch_buffer_size, Flush, MetricsBatcher, new_metrics_batcher, add, flush_buf, flush_if_full,
  is_nil, flush_if_any, receive_from, receive, tick, drain, BatchEvent, adds, receives, expires,
  ends, batch_run,
}

module _ {E : Type 0} where
  append_assoc : (a b c : List E) → (a ++ b) ++ c ≡ a ++ (b ++ c)
  append_assoc [] b c = refl
  append_assoc (x ∷ a) b c = ap (λ l. x ∷ l) (append_assoc a b c)

  append_nil : (a : List E) → a ++ [] ≡ a
  append_nil [] = refl
  append_nil (x ∷ a) = ap (λ l. x ∷ l) (append_nil a)

  -- The entries that were handed to a flush, in order.
  abbrev pub flushed : List (Flush E) → List E
  flushed [] = []
  flushed (f ∷ fs) = f.entries ++ flushed fs

  flushed-append :
      (fs : List (Flush E)) (f : Flush E) → flushed (fs ++ f ∷ []) ≡ flushed fs ++ f.entries
  flushed-append [] f = append_nil f.entries
  flushed-append (g ∷ fs) f =
      ap (λ l. g.entries ++ l) (flushed-append fs f)
      ∙ sym (append_assoc g.entries (flushed fs) f.entries)

  -- All that the batcher has taken in.
  abbrev pub taken : MetricsBatcher E → List E
  taken b = flushed b.flushes ++ (b.buf ++ b.ch)

  taken-flush_buf : (ok : Bool) (b : MetricsBatcher E) → taken (flush_buf ok b) ≡ taken b
  unfolding flush_buf
  taken-flush_buf ok b =
      ap (λ l. l ++ b.ch) (flushed-append b.flushes (record { entries = b.buf; committed = ok }))
      ∙ append_assoc (flushed b.flushes) b.buf b.ch

  taken-flush_if_full : (ok : Bool) (b : MetricsBatcher E) → taken (flush_if_full ok b) ≡ taken b
  unfolding flush_if_full
  taken-flush_if_full ok b =
      if_rule (λ c. taken c ≡ taken b) (leb batch_buffer_size (length b.buf)) (flush_buf ok b) b
        (λ _. taken-flush_buf ok b) (λ _. refl)

  taken-flush_if_any : (ok : Bool) (b : MetricsBatcher E) → taken (flush_if_any ok b) ≡ taken b
  unfolding flush_if_any
  taken-flush_if_any ok b =
      if_rule (λ c. taken c ≡ taken b) (is_nil b.buf) b (flush_buf ok b) (λ _. refl)
        (λ _. taken-flush_buf ok b)

  taken-receive_from :
      (ok : Bool) (b : MetricsBatcher E) (l : List E)
      → b.ch ≡ l
      → taken (receive_from ok b l) ≡ taken b
  unfolding receive_from
  taken-receive_from ok b [] h = refl
  taken-receive_from ok b (e ∷ rest) h =
      taken-flush_if_full ok (record b { ch = rest; buf = b.buf ++ e ∷ [] })
      ∙ ap (λ l. flushed b.flushes ++ l) (append_assoc b.buf (e ∷ []) rest)
      ∙ ap (λ l. flushed b.flushes ++ (b.buf ++ l)) (sym h)

  taken-drain : (ok : Bool) (b : MetricsBatcher E) → taken (drain ok b) ≡ taken b
  unfolding drain
  taken-drain ok b =
      if_rule (λ c. taken c ≡ taken b) b.stopped b _ (λ _. refl)
        (λ _.
          taken-flush_if_any ok (record b { ch = []; buf = b.buf ++ b.ch; stopped = true })
          ∙ ap (λ l. flushed b.flushes ++ l) (append_nil (b.buf ++ b.ch)))

  -- The entries that the channel has room for when they come.
  unfoldable pub accepted : List (BatchEvent E) → MetricsBatcher E → List E
  unfolding add
  accepted [] b = []
  accepted (adds e ∷ es) b =
      let rest = accepted es (add e b).0 in if (add e b).1 then e ∷ rest else rest
  accepted (receives ok ∷ es) b = accepted es (receive ok b)
  accepted (expires ok ∷ es) b = accepted es (tick ok b)
  accepted (ends ok ∷ es) b = accepted es (drain ok b)

  taken-full :
      (e : E) (b : MetricsBatcher E) → taken (record b { ch = b.ch ++ e ∷ [] }) ≡ taken b ++ e ∷ []
  taken-full e b =
      ap (λ l. flushed b.flushes ++ l) (sym (append_assoc b.buf b.ch (e ∷ [])))
      ∙ sym (append_assoc (flushed b.flushes) (b.buf ++ b.ch) (e ∷ []))

  batch_run-taken :
      (es : List (BatchEvent E)) (b : MetricsBatcher E)
      → taken (batch_run es b) ≡ taken b ++ accepted es b
  unfolding batch_run accepted receive tick
  batch_run-taken [] b = sym (append_nil (taken b))
  batch_run-taken (adds e ∷ es) b =
      unfold add in split (ltb (length b.ch) batch_buffer_size) (λ c. batch_run-taken es c)
    where
      full : MetricsBatcher E
      full = record b { ch = b.ch ++ e ∷ [] }

      split :
          (ok : Bool)
          → ((c : MetricsBatcher E) → taken (batch_run es c) ≡ taken c ++ accepted es c)
          → let added : MetricsBatcher E × Bool = if ok then (full, true) else (b, false) in
            taken (batch_run es added.0)
            ≡ taken b ++ (if added.1 then e ∷ accepted es added.0 else accepted es added.0)
      split true ih =
          ih full
          ∙ ap (λ l. l ++ accepted es full) (taken-full e b)
          ∙ append_assoc (taken b) (e ∷ []) (accepted es full)
      split false ih = ih b
  batch_run-taken (receives ok ∷ es) b =
      batch_run-taken es (receive ok b)
      ∙ ap (λ l. l ++ accepted es (receive ok b))
          (if_rule (λ c. taken c ≡ taken b) b.stopped b (receive_from ok b b.ch) (λ _. refl)
            (λ _. taken-receive_from ok b b.ch refl))
  batch_run-taken (expires ok ∷ es) b =
      batch_run-taken es (tick ok b)
      ∙ ap (λ l. l ++ accepted es (tick ok b))
          (if_rule (λ c. taken c ≡ taken b) b.stopped b (flush_if_any ok b) (λ _. refl)
            (λ _. taken-flush_if_any ok b))
  batch_run-taken (ends ok ∷ es) b =
      batch_run-taken es (drain ok b) ∙ ap (λ l. l ++ accepted es (drain ok b)) (taken-drain ok b)

  nothing_left :
      (ok : Bool) (c : MetricsBatcher E) → c.ch ≡ [] → flushed (flush_if_any ok c).flushes ≡ taken c
  unfolding flush_if_any flush_buf
  nothing_left ok c h = any_left c.buf c.ch h
    where
      any_left :
          (l k : List E)
          → k ≡ []
          → flushed
              (if is_nil l then record c { buf = l; ch = k } else record c {
                flushes = c.flushes ++ record { entries = l; committed = ok } ∷ [];
                buf = [];
                ch = k;
              }).flushes
            ≡ flushed c.flushes ++ (l ++ k)
      any_left [] k e =
          sym (append_nil (flushed c.flushes)) ∙ ap (λ t. flushed c.flushes ++ t) (sym e)
      any_left (x ∷ l) k e =
          flushed-append c.flushes (record { entries = x ∷ l; committed = ok })
          ∙ ap (λ t. flushed c.flushes ++ t)
              (sym (append_nil (x ∷ l)) ∙ ap (λ t. x ∷ l ++ t) (sym e))

  -- Whatever the order of arrivals, receptions, ticks and the end, the entries handed to a flush so
  -- far, the loop's buffer and the channel are the accepted entries in their order, none lost and
  -- none repeated, whether or not the flushes commit.
  pub batch_run-accepted :
      (es : List (BatchEvent E))
      → taken (batch_run es new_metrics_batcher) ≡ accepted es new_metrics_batcher
  batch_run-accepted es = batch_run-taken es new_metrics_batcher

  -- When a loop that still runs ends, the entries handed to all its flushes, the last one included,
  -- are the accepted entries in their order.
  pub drain-accepted :
      (es : List (BatchEvent E)) (ok : Bool)
      → (batch_run es new_metrics_batcher).stopped ≡ false
      → flushed (drain ok (batch_run es new_metrics_batcher)).flushes
        ≡ accepted es new_metrics_batcher
  unfolding drain
  drain-accepted es ok running =
      let b = batch_run es new_metrics_batcher in
      rw running (
        nothing_left ok (record b { ch = []; buf = b.buf ++ b.ch; stopped = true }) refl
        ∙ ap (λ l. flushed b.flushes ++ l) (append_nil (b.buf ++ b.ch))
        ∙ batch_run-accepted es)
