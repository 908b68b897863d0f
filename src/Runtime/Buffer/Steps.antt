-- ===== src/Runtime/Buffer/Steps.antt =====
-- The histories of the write-behind buffer of src/sentinel/runtime.py: events consumed, flushes
-- begun and saves ended in any order, with whatever the database answers.
use sentinel_linux.Prelude.{ℕ, ◌+◌, ◌≡◌, false, Option, some, List, [], length}
use sentinel_linux.Runtime.Buffer.{
  Buffer, Store, Writer, idle, whole, rows, Batch, Failure, buffer_event, begin_flush, end_save,
}

-- The buffer of a new runtime.
abbrev pub empty_buffer : {E A : Type 0} → ℕ → ℕ → Buffer E A
empty_buffer batch_size max_pending = record {
  batch_size = batch_size;
  max_pending = max_pending;
  events = record { pending = []; unpersisted = 0 };
  alerts = record { pending = []; unpersisted = 0 };
  next_id = 0;
  flush_wanted = false;
  persist_failures = 0;
  persist_failing = false;
  writer = idle;
}

-- The buffer, what the database acknowledged, and how many records were consumed.
pub record World (E A : Type 0) : Type 0 where
  pub buffer : Buffer E A
  pub store : Store E A
  pub consumed_events : ℕ
  pub consumed_alerts : ℕ

pub data Step {E A : Type 0} (w : World E A) : World E A → Type 0 where
  consume :
      (event : E) (alerts : List A)
      → Step w (record w {
        buffer = buffer_event event alerts w.buffer;
        consumed_events = w.consumed_events + 1;
        consumed_alerts = w.consumed_alerts + length alerts;
      })
  flush : (b : Buffer E A) → begin_flush w.buffer ≡ some b → Step w (record w { buffer = b })
  save :
      (outcome : Option Failure) (b : Buffer E A) (s : Store E A)
      → end_save outcome (w.buffer, w.store) ≡ some (b, s)
      → Step w (record w { buffer = b; store = s })

pub data History {E A : Type 0} (start : World E A) : World E A → Type 0 where
  begins : History start start
  goes_on : {w w' : World E A} → History start w → Step w w' → History start w'

abbrev pub begin : {E A : Type 0} → ℕ → ℕ → World E A
begin batch_size max_pending = record {
  buffer = empty_buffer batch_size max_pending;
  store = record { events = []; alerts = [] };
  consumed_events = 0;
  consumed_alerts = 0;
}

-- What a flush is writing, of each kind.
abbrev pub events_of : {E A : Type 0} → Writer E A → Batch E
events_of idle = record { left = []; rejected = 0 }
events_of (whole events alerts) = record { left = events; rejected = 0 }
events_of (rows events alerts) = events

abbrev pub alerts_of : {E A : Type 0} → Writer E A → Batch A
alerts_of idle = record { left = []; rejected = 0 }
alerts_of (whole events alerts) = record { left = alerts; rejected = 0 }
alerts_of (rows events alerts) = alerts
