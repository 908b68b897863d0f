-- ===== src/Runtime/Buffer.antt =====
-- The write-behind buffer of src/sentinel/runtime.py. Both kinds of records are kept alike, so one
-- kind is a `Side`: `_pending_events` and `_events_unpersisted`, or the two names for alerts. A
-- write id (`Pending` and `write_ids` of src/sentinel/storage/repository.py) is its sequence number;
-- the prefix of the writer is left out. The database is outside the model: how a save ended is an
-- argument of the step that ends it, and between a save's start and its end events may be consumed.
pub mod Sides
pub mod Steps
pub mod Conservation
pub mod Bounds
use sentinel_linux.Prelude.{
  ℕ, ◌+◌, ◌-◌, Bool, true, false, Option, none, some, List, [], ◌∷◌, ◌++◌, length, drop, leb, ltb,
  ◌||◌, ◌&&◌, not, if◌then◌else◌, String,
}
use sentinel_linux.Prelude.Text.{text_take}
use text.Mathlib.Text.{◌==◌ as str_eq}

abbrev pub Pending : Type 0 → Type 0
Pending R = ℕ × R

pub record Side (R : Type 0) : Type 0 where
  pub pending : List (Pending R)
  pub unpersisted : ℕ

-- What is left of a batch, and how many of its rows the database rejected so far.
pub record Batch (R : Type 0) : Type 0 where
  pub left : List (Pending R)
  pub rejected : ℕ

-- The exceptions of a save that `_is_rejection` tells apart; `sqlstate` is that of `exc.orig`.
pub data Failure : Type 0 where
  data_error integrity_error other_error : Failure
  dbapi_error : Option String → Failure

abbrev rejected_class : Option String → Bool
rejected_class none = false
rejected_class (some sqlstate) =
    str_eq (text_take 2 sqlstate) "22" || str_eq (text_take 2 sqlstate) "23"

abbrev pub is_rejection : Failure → Bool
is_rejection data_error = true
is_rejection integrity_error = true
is_rejection (dbapi_error sqlstate) = rejected_class sqlstate
is_rejection other_error = false

-- The flush under way: none, a save of the whole batch, or a save of the first row left.
pub data Writer (E A : Type 0) : Type 0 where
  idle : Writer E A
  whole : List (Pending E) → List (Pending A) → Writer E A
  rows : Batch E → Batch A → Writer E A

pub record Buffer (E A : Type 0) : Type 0 where
  pub batch_size : ℕ
  pub max_pending : ℕ
  pub events : Side E
  pub alerts : Side A
  pub next_id : ℕ
  pub flush_wanted : Bool
  pub persist_failures : ℕ
  pub persist_failing : Bool
  pub writer : Writer E A

-- What the database acknowledged, in the order of the acknowledgements.
pub record Store (E A : Type 0) : Type 0 where
  pub events : List (Pending E)
  pub alerts : List (Pending A)

module _ {R : Type 0} where
  -- `append(Pending(next(self._write_ids), record))`
  unfoldable pub push : ℕ → R → Side R → Side R
  push id r s = record s { pending = s.pending ++ (id, r) ∷ [] }

  -- `_trim_pending`, of one kind: the oldest beyond the cap are dropped and counted.
  unfoldable pub trim_side : ℕ → Side R → Side R
  trim_side cap s =
      let excess = length s.pending - cap in
      record s { pending = drop excess s.pending; unpersisted = s.unpersisted + excess }

  -- `self._pending_events[:0] = events`
  unfoldable pub put_back : List (Pending R) → Side R → Side R
  put_back batch s = record s { pending = batch ++ s.pending }

  -- `_discard_pending`, of one kind.
  unfoldable pub discard : Side R → Side R
  discard s = record s { pending = []; unpersisted = s.unpersisted + length s.pending }

  abbrev pub count_rejected : ℕ → Side R → Side R
  count_rejected n s = record s { unpersisted = s.unpersisted + n }

  -- The alerts of one event, each with the next id.
  unfoldable pub push_all : ℕ → List R → Side R → Side R
  unfolding push
  push_all id [] s = s
  push_all id (r ∷ rs) s = push_all (id + 1) rs (push id r s)

abbrev pub is_empty : {X : Type 0} → List X → Bool
is_empty [] = true
is_empty (_ ∷ _) = false

module _ {E A : Type 0} where
  -- `_trim_pending`
  unfoldable pub trim_pending : Buffer E A → Buffer E A
  unfolding trim_side
  trim_pending b = record b {
    events = trim_side b.max_pending b.events;
    alerts = trim_side b.max_pending b.alerts;
  }

  -- The buffering part of `_consume`: the alerts to store, then the event, each with the next id;
  -- the cap; and the signal to the flusher once a batch has accumulated.
  abbrev pub take_in : E → List A → Buffer E A → Buffer E A
  take_in event alerts b = record b {
    alerts = push_all b.next_id alerts b.alerts;
    events = push (b.next_id + length alerts) event b.events;
    next_id = b.next_id + length alerts + 1;
  }

  abbrev pub capped : Buffer E A → Buffer E A
  capped b = if ltb b.max_pending (length b.events.pending) then trim_pending b else b

  abbrev pub signalled : Buffer E A → Buffer E A
  signalled b =
      if leb b.batch_size (length b.events.pending) then record b { flush_wanted = true } else b

  unfoldable pub buffer_event : E → List A → Buffer E A → Buffer E A
  unfolding push_all push trim_pending
  buffer_event event alerts b = signalled (capped (take_in event alerts b))

  -- `_requeue`
  unfoldable pub requeue : List (Pending E) → List (Pending A) → Buffer E A → Buffer E A
  unfolding put_back trim_pending
  requeue events alerts b = trim_pending (record b {
    persist_failures = b.persist_failures + 1;
    events = put_back events b.events;
    alerts = put_back alerts b.alerts;
  })

  -- `flush` up to its first save. The lock lets one flush run at a time: `none` while one does. An
  -- empty buffer is written at once, and is no news of the database.
  abbrev pub start : Writer E A → Buffer E A → Option (Buffer E A)
  start idle b = some (
      if is_empty b.events.pending && is_empty b.alerts.pending then b else record b {
        events = record b.events { pending = [] };
        alerts = record b.alerts { pending = [] };
        writer = whole b.events.pending b.alerts.pending;
      })
  start (whole _ _) b = none
  start (rows _ _) b = none

  unfoldable pub begin_flush : Buffer E A → Option (Buffer E A)
  begin_flush b = start b.writer b

  abbrev pub written : Bool → Buffer E A → Buffer E A
  written ok b = record b { writer = idle; persist_failing = not ok }

  -- The rows rejected are counted when the row by row write is over, whichever way it ends.
  abbrev pub count_rows : ℕ → ℕ → Buffer E A → Buffer E A
  count_rows events alerts b = record b {
    events = count_rejected events b.events;
    alerts = count_rejected alerts b.alerts;
  }

  -- The loops of `_write_row_by_row` once a row is settled: the next row, or the end.
  abbrev pub next_row : Batch E → Batch A → Buffer E A → Buffer E A
  next_row events alerts b =
      if is_empty events.left && is_empty alerts.left
      then written true (count_rows events.rejected alerts.rejected b)
      else record b { writer = rows events alerts }

  abbrev pub row_outage : Batch E → Batch A → Buffer E A → Buffer E A
  row_outage events alerts b =
      written false (requeue events.left alerts.left (count_rows events.rejected alerts.rejected b))

  -- The end of the save of one row: acknowledged, rejected, or an outage.
  abbrev pub row_saved :
      Option Failure
      → List (Pending E)
      → List (Pending A)
      → Batch E
      → Batch A
      → Buffer E A × Store E A
      → Option (Buffer E A × Store E A)
  row_saved none (e ∷ es) qs events alerts (b, s) =
      some
        (next_row (record events { left = es }) alerts b, record s { events = s.events ++ e ∷ [] })
  row_saved none [] (a ∷ qs) events alerts (b, s) =
      some
        (next_row events (record alerts { left = qs }) b, record s { alerts = s.alerts ++ a ∷ [] })
  row_saved (some failure) (e ∷ es) qs events alerts (b, s) = some (
    if is_rejection failure
        then next_row (record { left = es; rejected = events.rejected + 1 }) alerts b
        else row_outage events alerts b,
    s,
  )
  row_saved (some failure) [] (a ∷ qs) events alerts (b, s) = some (
    if is_rejection failure
        then next_row events (record { left = qs; rejected = alerts.rejected + 1 }) b
        else row_outage events alerts b,
    s,
  )
  row_saved outcome [] [] events alerts (b, s) = none

  -- The end of a save; `none` is no exception. The whole batch is stored, put back, or, if the
  -- database rejects it, tried again row by row.
  abbrev pub saved :
      Writer E A → Option Failure → Buffer E A × Store E A → Option (Buffer E A × Store E A)
  saved idle outcome bs = none
  saved (whole events alerts) none (b, s) =
      some (written true b, record { events = s.events ++ events; alerts = s.alerts ++ alerts })
  saved (whole events alerts) (some failure) (b, s) = some (
    if is_rejection failure
        then record b {
          writer =
              rows (record { left = events; rejected = 0 })
                (record { left = alerts; rejected = 0 });
        }
        else written false (requeue events alerts b),
    s,
  )
  saved (rows events alerts) outcome bs = row_saved outcome events.left alerts.left events alerts bs

  unfoldable pub end_save :
      Option Failure → Buffer E A × Store E A → Option (Buffer E A × Store E A)
  unfolding requeue
  end_save outcome bs = saved bs.0.writer outcome bs

  -- `_discard_pending`
  unfoldable pub discard_pending : Buffer E A → Buffer E A
  unfolding discard
  discard_pending b = record b { events = discard b.events; alerts = discard b.alerts }
