-- ===== src/Batch/Batcher.antt =====
-- MetricsBatcher of server/batcher.go, for entries of any type. A flush that the database refuses
-- loses its entries: whether it commits is an argument of the step that flushes.
use librawatch.Common.{ℕ, Bool, true, false, leb, ltb, if◌then◌else◌, List, [], ◌∷◌, ◌++◌, length}

abbrev pub batch_buffer_size : ℕ
batch_buffer_size = 1000

pub record Flush (E : Type 0) : Type 0 where
  pub entries : List E
  pub committed : Bool

-- The channel, the loop's buffer, the flushes from the first on, and whether the loop has ended.
pub record MetricsBatcher (E : Type 0) : Type 0 where
  pub ch : List E
  pub buf : List E
  pub flushes : List (Flush E)
  pub stopped : Bool

module _ {E : Type 0} where
  abbrev pub new_metrics_batcher : MetricsBatcher E
  new_metrics_batcher = record { ch = []; buf = []; flushes = []; stopped = false }

  -- False when the buffer is full and the entry is dropped.
  unfoldable pub add : E → MetricsBatcher E → MetricsBatcher E × Bool
  add e b =
      let full = record b { ch = b.ch ++ e ∷ [] } in
      if ltb (length b.ch) batch_buffer_size then (full, true) else (b, false)

  unfoldable pub flush_buf : Bool → MetricsBatcher E → MetricsBatcher E
  flush_buf ok b = record b {
    flushes = b.flushes ++ record { entries = b.buf; committed = ok } ∷ [];
    buf = [];
  }

  unfoldable pub flush_if_full : Bool → MetricsBatcher E → MetricsBatcher E
  unfolding flush_buf
  flush_if_full ok b = if leb batch_buffer_size (length b.buf) then flush_buf ok b else b

  abbrev pub is_nil : List E → Bool
  is_nil [] = true
  is_nil (e ∷ es) = false

  unfoldable pub flush_if_any : Bool → MetricsBatcher E → MetricsBatcher E
  unfolding flush_buf
  flush_if_any ok b = if is_nil b.buf then b else flush_buf ok b

  -- case e := <-b.ch
  unfoldable pub receive_from : Bool → MetricsBatcher E → List E → MetricsBatcher E
  unfolding flush_if_full
  receive_from ok b [] = b
  receive_from ok b (e ∷ rest) = flush_if_full ok (record b { ch = rest; buf = b.buf ++ e ∷ [] })

  unfoldable pub receive : Bool → MetricsBatcher E → MetricsBatcher E
  unfolding receive_from
  receive ok b = if b.stopped then b else receive_from ok b b.ch

  -- case <-ticker.C
  unfoldable pub tick : Bool → MetricsBatcher E → MetricsBatcher E
  unfolding flush_if_any
  tick ok b = if b.stopped then b else flush_if_any ok b

  -- case <-b.done
  unfoldable pub drain : Bool → MetricsBatcher E → MetricsBatcher E
  unfolding flush_if_any
  drain ok b =
      if b.stopped
      then b
      else flush_if_any ok (record b { ch = []; buf = b.buf ++ b.ch; stopped = true })

-- What happens to the batcher.
pub data BatchEvent (E : Type 0) : Type 0 where
  adds : E → BatchEvent E
  receives : Bool → BatchEvent E
  expires : Bool → BatchEvent E
  ends : Bool → BatchEvent E

module _ {E : Type 0} where
  unfoldable pub batch_step : BatchEvent E → MetricsBatcher E → MetricsBatcher E
  unfolding add receive tick drain
  batch_step (adds e) b = (add e b).0
  batch_step (receives ok) b = receive ok b
  batch_step (expires ok) b = tick ok b
  batch_step (ends ok) b = drain ok b

  -- The batcher after some events.
  unfoldable pub batch_run : List (BatchEvent E) → MetricsBatcher E → MetricsBatcher E
  unfolding batch_step
  batch_run [] b = b
  batch_run (e ∷ es) b = batch_run es (batch_step e b)
