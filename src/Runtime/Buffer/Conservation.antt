-- ===== src/Runtime/Buffer/Conservation.antt =====
-- The account of the records in the write-behind buffer of src/sentinel/runtime.py, step by step.
use mathlib.Core.Path.{subst}
use sentinel_linux.Prelude.{
  ℕ, ◌+◌, ◌≡◌, refl, sym, Bool, true, false, Option, none, some, List, [], ◌∷◌, ◌++◌, length, leb,
  ltb, ◌&&◌, if◌then◌else◌, arith, some_injective,
}
use sentinel_linux.Runtime.Buffer.{
  Pending, Buffer, Store, Writer, idle, whole, rows, Batch, Failure, is_rejection, buffer_event,
  begin_flush, end_save, requeue, take_in, capped, signalled, trim_pending, start, saved, row_saved,
  next_row, row_outage, count_rows, is_empty,
}
use sentinel_linux.Runtime.Buffer.Sides.{
  Sound, new_side, push-Sound, push_all-Sound, later-Sound, trim_side-Sound, put_back-Sound,
  count_rejected-Sound, take-Sound, store-Sound, store_row-Sound, reject_row-Sound,
}
use sentinel_linux.Runtime.Buffer.Steps.{
  World, Step, consume, flush, save, History, begins, goes_on, begin, events_of, alerts_of,
}

module _ {E A : Type 0} where
  -- Both kinds are accounted for, with the batches given.
  record Both (n k : ℕ) (es : Batch E) (qs : Batch A) (b : Buffer E A) (s : Store E A)
      : Type 0 where
    pub events : Sound n b.next_id s.events es b.events
    pub alerts : Sound k b.next_id s.alerts qs b.alerts

  if-Both :
      (c : Bool) {n k : ℕ} {es : Batch E} {qs : Batch A} {b b' : Buffer E A} {s : Store E A}
      → Both n k es qs b s
      → Both n k es qs b' s
      → Both n k es qs (if c then b else b') s
  if-Both true t t' = t
  if-Both false t t' = t'

  trim-Both :
      {n k : ℕ} {es : Batch E} {qs : Batch A} {b : Buffer E A} {s : Store E A}
      → Both n k es qs b s
      → Both n k es qs (trim_pending b) s
  unfolding trim_pending
  trim-Both {b = b} t = record {
    events = trim_side-Sound b.max_pending t.events;
    alerts = trim_side-Sound b.max_pending t.alerts;
  }

  consume-Both :
      (event : E) (alerts : List A) {n k : ℕ} {es : Batch E} {qs : Batch A} {b : Buffer E A}
      {s : Store E A}
      → Both n k es qs b s
      → Both (n + 1) (k + length alerts) es qs (buffer_event event alerts b) s
  unfolding buffer_event
  consume-Both event alerts {n} {k} {es} {qs} {b} {s} t =
      signalled-Both (capped (take_in event alerts b)) (
        capped-Both (take_in event alerts b) (record {
          events = push-Sound event (later-Sound (omega arith) t.events);
          alerts = later-Sound (omega arith) (push_all-Sound alerts t.alerts);
        }))
    where
      capped-Both :
          (b' : Buffer E A)
          → Both (n + 1) (k + length alerts) es qs b' s
          → Both (n + 1) (k + length alerts) es qs (capped b') s
      capped-Both b' t' = if-Both (ltb b'.max_pending (length b'.events.pending)) (trim-Both t') t'

      signalled-Both :
          (b' : Buffer E A)
          → Both (n + 1) (k + length alerts) es qs b' s
          → Both (n + 1) (k + length alerts) es qs (signalled b') s
      signalled-Both b' t' =
          if-Both (leb b'.batch_size (length b'.events.pending))
            (record { events = t'.events; alerts = t'.alerts }) t'

  requeue-Both :
      {n k : ℕ} {es : Batch E} {qs : Batch A} {b : Buffer E A} {s : Store E A}
      → Both n k es qs b s
      → Both n k (record es { left = [] }) (record qs { left = [] }) (requeue es.left qs.left b) s
  unfolding requeue
  requeue-Both {b = b} t =
      trim-Both (record { events = put_back-Sound t.events; alerts = put_back-Sound t.alerts })

  count_rows-Both :
      {n k : ℕ} {es : Batch E} {qs : Batch A} {b : Buffer E A} {s : Store E A}
      → Both n k es qs b s
      → Both n k
          (record es { rejected = 0 })
          (record qs { rejected = 0 })
          (count_rows es.rejected qs.rejected b)
          s
  count_rows-Both t = record {
    events = count_rejected-Sound t.events;
    alerts = count_rejected-Sound t.alerts;
  }

  abbrev Valid : ℕ → ℕ → Buffer E A × Store E A → Type 0
  Valid n k (b, s) = Both n k (events_of b.writer) (alerts_of b.writer) b s

  abbrev IfValid : ℕ → ℕ → Option (Buffer E A × Store E A) → Type 0
  IfValid n k none = Unit
  IfValid n k (some bs) = Valid n k bs

  -- A row settled: the next one, or the end of the row by row write.
  next_row-Valid :
      (n k : ℕ) (left : List (Pending E)) (r : ℕ) (left' : List (Pending A)) (r' : ℕ)
      (b : Buffer E A) (s : Store E A)
      → Both n k (record { left = left; rejected = r }) (record { left = left'; rejected = r' }) b s
      → Valid n k (
        next_row (record { left = left; rejected = r }) (record { left = left'; rejected = r' }) b,
        s,
      )
  next_row-Valid n k [] r [] r' b s t =
      let c = count_rows-Both t in record { events = c.events; alerts = c.alerts }
  next_row-Valid n k [] r (q ∷ qs) r' b s t = record { events = t.events; alerts = t.alerts }
  next_row-Valid n k (e ∷ es) r left' r' b s t = record { events = t.events; alerts = t.alerts }

  row_outage-Valid :
      (n k : ℕ) (es : Batch E) (qs : Batch A) (b : Buffer E A) (s : Store E A)
      → Both n k es qs b s
      → Valid n k (row_outage es qs b, s)
  row_outage-Valid n k es qs b s t =
      let c = requeue-Both (count_rows-Both t) in record { events = c.events; alerts = c.alerts }

  if-Valid :
      (n k : ℕ) (c : Bool) (b b' : Buffer E A) (s : Store E A)
      → Valid n k (b, s)
      → Valid n k (b', s)
      → Valid n k (if c then b else b', s)
  if-Valid n k true b b' s t t' = t
  if-Valid n k false b b' s t t' = t'

  row_saved-Valid :
      (n k : ℕ) (outcome : Option Failure) (left : List (Pending E)) (r : ℕ)
      (left' : List (Pending A)) (r' : ℕ) (b : Buffer E A) (s : Store E A)
      → Both n k (record { left = left; rejected = r }) (record { left = left'; rejected = r' }) b s
      → IfValid n k (
          row_saved outcome left left'
            (record { left = left; rejected = r })
            (record { left = left'; rejected = r' })
            (b, s))
  row_saved-Valid n k outcome [] r [] r' b s t = tt
  row_saved-Valid n k none (e ∷ es) r qs r' b s t =
      next_row-Valid n k es r qs r' b (record s { events = s.events ++ e ∷ [] })
        (record { events = store_row-Sound t.events; alerts = t.alerts })
  row_saved-Valid n k none [] r (q ∷ qs) r' b s t =
      next_row-Valid n k [] r qs r' b (record s { alerts = s.alerts ++ q ∷ [] })
        (record { events = t.events; alerts = store_row-Sound t.alerts })
  row_saved-Valid n k (some failure) (e ∷ es) r qs r' b s t =
      if-Valid n k (is_rejection failure) _ _ s
        (next_row-Valid n k es (r + 1) qs r' b s
          (record { events = reject_row-Sound t.events; alerts = t.alerts }))
        (row_outage-Valid n k (record { left = e ∷ es; rejected = r })
          (record { left = qs; rejected = r' }) b s t)
  row_saved-Valid n k (some failure) [] r (q ∷ qs) r' b s t =
      if-Valid n k (is_rejection failure) _ _ s
        (next_row-Valid n k [] r qs (r' + 1) b s
          (record { events = t.events; alerts = reject_row-Sound t.alerts }))
        (row_outage-Valid n k (record { left = []; rejected = r })
          (record { left = q ∷ qs; rejected = r' }) b s t)

  saved-Valid :
      (n k : ℕ) (w : Writer E A) (outcome : Option Failure) (b : Buffer E A) (s : Store E A)
      → Both n k (events_of w) (alerts_of w) b s
      → IfValid n k (saved w outcome (b, s))
  saved-Valid n k idle outcome b s t = tt
  saved-Valid n k (whole es qs) none b s t =
      let e = store-Sound t.events in
      let q = store-Sound t.alerts in record { events = e; alerts = q }
  saved-Valid n k (whole es qs) (some failure) b s t =
      if-Valid n k (is_rejection failure) _ _ s (record { events = t.events; alerts = t.alerts })
        (let c = requeue-Both t in record { events = c.events; alerts = c.alerts })
  saved-Valid n k (rows es qs) outcome b s t =
      row_saved-Valid n k outcome es.left es.rejected qs.left qs.rejected b s t

  start-Valid :
      (n k : ℕ) (w : Writer E A) (b b' : Buffer E A) (s : Store E A)
      → b.writer ≡ w
      → start w b ≡ some b'
      → Valid n k (b, s)
      → Valid n k (b', s)
  start-Valid n k idle b b' s ew h t =
      let t' : Both n k (record { left = []; rejected = 0 }) (record { left = []; rejected = 0 }) b
          s =
        subst (λ w. Both n k (events_of w) (alerts_of w) b s) ew t in
      subst (λ x. Valid n k (x, s)) (some_injective h)
        (if-Valid n k (is_empty b.events.pending && is_empty b.alerts.pending) _ _ s t
          (record { events = take-Sound t'.events; alerts = take-Sound t'.alerts }))
  start-Valid n k (whole _ _) b b' s ew h t = cc
  start-Valid n k (rows _ _) b b' s ew h t = cc

  writer_kept :
      (event : E) (alerts : List A) (b : Buffer E A)
      → (buffer_event event alerts b).writer ≡ b.writer
  unfolding buffer_event trim_pending
  writer_kept event alerts b = ground arith

  step-Valid :
      {w w' : World E A}
      → Step w w'
      → Valid w.consumed_events w.consumed_alerts (w.buffer, w.store)
      → Valid w'.consumed_events w'.consumed_alerts (w'.buffer, w'.store)
  unfolding begin_flush end_save
  step-Valid {w} (consume event alerts) t =
      subst
        (λ writer.
          Both (w.consumed_events + 1) (w.consumed_alerts + length alerts) (events_of writer)
            (alerts_of writer) (buffer_event event alerts w.buffer) w.store)
        (sym (writer_kept event alerts w.buffer)) (consume-Both event alerts t)
  step-Valid {w} (flush b e) t =
      start-Valid w.consumed_events w.consumed_alerts w.buffer.writer w.buffer b w.store refl e t
  step-Valid {w} (save outcome b s e) t =
      subst (IfValid w.consumed_events w.consumed_alerts) e
        (saved-Valid w.consumed_events w.consumed_alerts w.buffer.writer outcome w.buffer w.store t)

-- In every history of the buffer, whatever the database answers: each consumed record of a kind is
-- acknowledged by the database, rejected by it, in the batch being written, buffered, or counted as
-- unpersisted, once; and the write ids ascend through these places, so that records are acknowledged
-- in the order in which they were consumed, none twice.
pub History-Sound :
    {E A : Type 0} (batch_size max_pending : ℕ) {w : World E A}
    → History (begin batch_size max_pending) w
    → Sound w.consumed_events w.buffer.next_id w.store.events
        (events_of w.buffer.writer)
        w.buffer.events
      × Sound w.consumed_alerts w.buffer.next_id w.store.alerts
          (alerts_of w.buffer.writer)
          w.buffer.alerts
History-Sound {E} {A} batch_size max_pending {w} h = let t = go h in (t.events, t.alerts)
  where
    go :
        {w : World E A}
        → History (begin batch_size max_pending) w
        → Both w.consumed_events w.consumed_alerts
            (events_of w.buffer.writer)
            (alerts_of w.buffer.writer)
            w.buffer
            w.store
    go begins = record { events = new_side; alerts = new_side }
    go (goes_on h step) = step-Valid step (go h)
