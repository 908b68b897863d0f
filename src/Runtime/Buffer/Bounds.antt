-- ===== src/Runtime/Buffer/Bounds.antt =====
-- The cap on the write-behind buffer of src/sentinel/runtime.py, and what is left at shutdown.
use mathlib.Core.Path.{subst}
use sentinel_linux.Prelude.{
  ℕ, ◌+◌, ◌-◌, ◌≤◌, ◌≡◌, refl, ap, Bool, true, false, Option, none, some, List, [], ◌∷◌, length,
  length-drop, leb, ltb, ◌&&◌, if◌then◌else◌, Bool-cases, inl, inr, arith,
}
use sentinel_linux.Runtime.Buffer.{
  Pending, Buffer, Store, Writer, idle, whole, rows, Batch, Failure, is_rejection, buffer_event,
  begin_flush, end_save, trim_side, put_back, requeue, trim_pending, start, saved, row_saved,
  next_row, row_outage, written, count_rows, is_empty, take_in, capped, signalled, discard_pending,
  discard,
}
use sentinel_linux.Runtime.Buffer.Steps.{
  World, Step, consume, flush, save, History, begins, goes_on, begin, events_of, alerts_of,
}
use sentinel_linux.Runtime.Buffer.Conservation.{History-Sound}

module _ {E A : Type 0} (cap : ℕ) where
  abbrev Capped : Buffer E A → Type 0
  Capped b = (b.max_pending ≡ cap) × (length b.events.pending ≤ cap)

  trim-Capped : (b : Buffer E A) → b.max_pending ≡ cap → Capped (trim_pending b)
  unfolding trim_pending trim_side
  trim-Capped b e =
      (e, omega (arith, e, length-drop (length b.events.pending - b.max_pending) b.events.pending))

  if-Capped : (c : Bool) (b b' : Buffer E A) → Capped b → Capped b' → Capped (if c then b else b')
  if-Capped true b b' h h' = h
  if-Capped false b b' h h' = h'

  consume-Capped :
      (event : E) (alerts : List A) (b : Buffer E A)
      → b.max_pending ≡ cap
      → Capped (buffer_event event alerts b)
  unfolding buffer_event
  consume-Capped event alerts b e =
      signalled-Capped (capped (take_in event alerts b)) (capped-Capped (take_in event alerts b) e)
    where
      capped-Capped : (b : Buffer E A) → b.max_pending ≡ cap → Capped (capped b)
      capped-Capped b e = elim (Bool-cases (ltb b.max_pending (length b.events.pending))) [
        | inl over ↦ rw over (trim-Capped b e)
        | inr under ↦ rw under (e, ground arith)
      ]

      signalled-Capped : (b : Buffer E A) → Capped b → Capped (signalled b)
      signalled-Capped b h =
          if-Capped (leb b.batch_size (length b.events.pending)) (record b { flush_wanted = true })
            b h h

  abbrev IfCapped : Option (Buffer E A × Store E A) → Type 0
  IfCapped none = Unit
  IfCapped (some (b, s)) = Capped b

  next_row-Capped :
      (es : Batch E) (qs : Batch A) (b : Buffer E A) → Capped b → Capped (next_row es qs b)
  next_row-Capped es qs b h = by_emptiness (is_empty es.left && is_empty qs.left)
    where
      by_emptiness :
          (c : Bool)
          → Capped (
              if c
              then written true (count_rows es.rejected qs.rejected b)
              else record b { writer = rows es qs })
      by_emptiness true = h
      by_emptiness false = h

  requeue-Capped :
      (es : List (Pending E)) (qs : List (Pending A)) (b : Buffer E A)
      → b.max_pending ≡ cap
      → Capped (requeue es qs b)
  unfolding requeue
  requeue-Capped es qs b e =
      trim-Capped
        (record b {
          persist_failures = b.persist_failures + 1;
          events = put_back es b.events;
          alerts = put_back qs b.alerts;
        })
        e

  -- A row that failed: on to the next one, or an outage.
  failed-Capped :
      (c : Bool) (es es' : Batch E) (qs qs' : Batch A) (b : Buffer E A)
      → Capped b
      → Capped (if c then next_row es' qs' b else row_outage es qs b)
  failed-Capped true es es' qs qs' b h = next_row-Capped es' qs' b h
  failed-Capped false es es' qs qs' b h =
      requeue-Capped es.left qs.left (count_rows es.rejected qs.rejected b) h.0

  row_saved-Capped :
      (outcome : Option Failure) (left : List (Pending E)) (left' : List (Pending A)) (es : Batch E)
      (qs : Batch A) (b : Buffer E A) (s : Store E A)
      → Capped b
      → IfCapped (row_saved outcome left left' es qs (b, s))
  row_saved-Capped outcome [] [] es qs b s h = tt
  row_saved-Capped none (e ∷ left) left' es qs b s h =
      next_row-Capped (record es { left = left }) qs b h
  row_saved-Capped none [] (q ∷ left') es qs b s h =
      next_row-Capped es (record qs { left = left' }) b h
  row_saved-Capped (some failure) (e ∷ left) left' es qs b s h =
      failed-Capped (is_rejection failure) es (record { left = left; rejected = es.rejected + 1 })
        qs qs b h
  row_saved-Capped (some failure) [] (q ∷ left') es qs b s h =
      failed-Capped (is_rejection failure) es es qs
        (record { left = left'; rejected = qs.rejected + 1 }) b h

  saved-Capped :
      (w : Writer E A) (outcome : Option Failure) (b : Buffer E A) (s : Store E A)
      → Capped b
      → IfCapped (saved w outcome (b, s))
  saved-Capped idle outcome b s h = tt
  saved-Capped (whole es qs) none b s h = h
  saved-Capped (whole es qs) (some failure) b s h = rejected_or-Capped (is_rejection failure)
    where
      rejected_or-Capped :
          (c : Bool)
          → Capped (
              if c
              then record b {
                writer =
                    rows (record { left = es; rejected = 0 }) (record { left = qs; rejected = 0 });
              }
              else written false (requeue es qs b))
      rejected_or-Capped true = h
      rejected_or-Capped false = requeue-Capped es qs b h.0
  saved-Capped (rows es qs) outcome b s h = row_saved-Capped outcome es.left qs.left es qs b s h

  IfCappedBuffer : Option (Buffer E A) → Type 0
  IfCappedBuffer none = Unit
  IfCappedBuffer (some b) = Capped b

  start-Capped : (w : Writer E A) (b : Buffer E A) → Capped b → IfCappedBuffer (start w b)
  unfolding IfCappedBuffer
  start-Capped idle b h = by_emptiness (is_empty b.events.pending && is_empty b.alerts.pending)
    where
      by_emptiness :
          (c : Bool)
          → Capped (
              if c then b else record b {
                events = record b.events { pending = [] };
                alerts = record b.alerts { pending = [] };
                writer = whole b.events.pending b.alerts.pending;
              })
      by_emptiness true = h
      by_emptiness false = (h.0, omega arith)
  start-Capped (whole _ _) b h = tt
  start-Capped (rows _ _) b h = tt

  step-Capped : {w w' : World E A} → Step w w' → Capped w.buffer → Capped w'.buffer
  unfolding begin_flush end_save IfCappedBuffer
  step-Capped {w} (consume event alerts) h = consume-Capped event alerts w.buffer h.0
  step-Capped {w} (flush b e) h = subst IfCappedBuffer e (start-Capped w.buffer.writer w.buffer h)
  step-Capped {w} (save outcome b s e) h =
      subst IfCapped e (saved-Capped w.buffer.writer outcome w.buffer w.store h)

-- In every history of the buffer, however long the database stays down, at most `max_pending`
-- events are buffered.
pub History-capped :
    {E A : Type 0} (batch_size max_pending : ℕ) {w : World E A}
    → History (begin batch_size max_pending) w
    → length w.buffer.events.pending ≤ max_pending
History-capped {E} {A} batch_size max_pending {w} h = (go h).1
  where
    go : {w : World E A} → History (begin batch_size max_pending) w → Capped max_pending w.buffer
    go begins = (refl, omega arith)
    go (goes_on h step) = step-Capped max_pending step (go h)

-- At shutdown, once no flush runs and what is left is discarded, every consumed record is either
-- acknowledged by the database or counted as unpersisted.
pub shutdown_accounts :
    {E A : Type 0} (batch_size max_pending : ℕ) {w : World E A}
    → History (begin batch_size max_pending) w
    → w.buffer.writer ≡ idle
    → (w.consumed_events ≡ length w.store.events + (discard_pending w.buffer).events.unpersisted)
      × (w.consumed_alerts ≡ length w.store.alerts + (discard_pending w.buffer).alerts.unpersisted)
unfolding discard_pending discard
shutdown_accounts {E} {A} batch_size max_pending {w} h quiet =
    let t = History-Sound batch_size max_pending h in
    (
      omega (
        arith,
        t.0.total,
        ap (λ (x : Writer E A). (events_of x).rejected + length (events_of x).left) quiet,
      ),
      omega (
        arith,
        t.1.total,
        ap (λ (x : Writer E A). (alerts_of x).rejected + length (alerts_of x).left) quiet,
      ),
    )
