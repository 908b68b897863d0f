-- ===== src/Pipeline/Runner.antt =====
-- src/sentinel/pipeline/runner.py: the registry, the single consumer loop, and shutdown.
-- An event is any type with its dedup key. The consumer callback is outside the model: whether it
-- returned or raised is an argument of the step that ends its call. Between the fetch and that end
-- the loop is suspended, and collectors may put events.
pub mod Supervise
pub mod Turns
pub mod Steps
pub mod Accounting
pub mod Histories
pub mod Drain
use sentinel_linux.Prelude.{
  ℕ, zero, suc, ◌+◌, ◌≡◌, Bool, true, false, Option, none, some, List, [], ◌∷◌, length,
  if◌then◌else◌, String, ◌||◌,
}
use sentinel_linux.Prelude.Eq.{text_key}
use sentinel_linux.Dict
use sentinel_linux.Dict.{Dict}
use sentinel_linux.Pipeline.Dedup
use sentinel_linux.Pipeline.Dedup.{DedupWindow, seen}
use sentinel_linux.Pipeline.Queue
use sentinel_linux.Pipeline.Queue.{
  BoundedEventQueue, BackpressurePolicy, Put, taken, refused, suspended,
}

-- The state that `Pipeline` keeps; `collectors` by name, `consumer` says whether one is set, and
-- `in_flight` is the event whose callback is running.
pub record Pipeline (E C : Type 0) : Type 0 where
  pub queue : BoundedEventQueue E
  pub dedup : DedupWindow
  pub collectors : Dict String C
  pub consumer : Bool
  pub in_flight : Option E
  pub processed : ℕ
  pub deduped : ℕ
  pub consumer_errors : ℕ
  pub stop_requested : Bool

-- The constructor, from the settings that it reads; `none` is a ValueError of a component.
unfoldable pub new : {E C : Type 0} → ℕ → BackpressurePolicy → ℕ → ℕ → Option (Pipeline E C)
unfolding Queue.init Dedup.init
new queue_maxsize queue_backpressure dedup_window_seconds dedup_max_entries =
    elim (Queue.init queue_maxsize queue_backpressure) [
      | none ↦ none
      | some queue ↦ elim (Dedup.init dedup_window_seconds dedup_max_entries) [
        | none ↦ none
        | some dedup ↦ some (record {
          queue = queue;
          dedup = dedup;
          collectors = [];
          consumer = false;
          in_flight = none;
          processed = 0;
          deduped = 0;
          consumer_errors = 0;
          stop_requested = false;
        })
      ]
    ]

module _ {E C : Type 0} where
  -- `register`; `none` is the ValueError of a name that is taken.
  unfoldable pub register : String → C → Pipeline E C → Option (Pipeline E C)
  register name collector p =
      if Dict.has name p.collectors
      then none
      else some (record p { collectors = Dict.set name collector p.collectors })

  unfoldable pub set_consumer : Pipeline E C → Pipeline E C
  set_consumer p = record p { consumer = true }

  -- `stop`, its first lines: the request is recorded before anything is awaited.
  unfoldable pub request_stop : Pipeline E C → Pipeline E C
  request_stop p = record p { stop_requested = true }

-- What `run` does first: two startup errors, the early return, or one task for each collector.
pub data Run : Type 0 where
  no_consumer no_collectors stopped_before_start : Run
  started : List String → Run

abbrev names : {C : Type 0} → Dict String C → List String
names [] = []
names ((name, _) ∷ d) = name ∷ names d

unfoldable pub run : {E C : Type 0} → Pipeline E C → Run
run p =
    if p.consumer
    then (elim p.collectors [
      | [] ↦ no_collectors
      | _ ∷ _ ↦ if p.stop_requested then stopped_before_start else started (names p.collectors)
    ])
    else no_consumer

module _ {E C : Type 0} (dedup_key : E → String) where
  -- A duplicate: counted, and `task_done` by the `finally`.
  abbrev skip : BoundedEventQueue E → DedupWindow → Pipeline E C → Option (Pipeline E C)
  skip queue dedup p = elim (Queue.task_done queue) [
    | none ↦ none
    | some done ↦ some (record p { queue = done; dedup = dedup; deduped = p.deduped + 1 })
  ]

  abbrev dispatch :
      E → BoundedEventQueue E → DedupWindow × Bool → Pipeline E C → Option (Pipeline E C)
  dispatch event queue (dedup, duplicate) p =
      if duplicate
      then skip queue dedup p
      else some (record p { queue = queue; dedup = dedup; in_flight = some event })

  -- One turn of `_consume` up to the call of the callback: `get`, then the dedup window at the
  -- clock value `now`. `none` means that the loop cannot take this step: it waits on an empty
  -- queue, or a callback is running.
  unfoldable pub fetch : ℕ → Pipeline E C → Option (Pipeline E C)
  fetch now p = elim p.in_flight [
    | some _ ↦ none
    | none ↦ elim (Queue.get p.queue) [
      | none ↦ none
      | some (event, queue) ↦ dispatch event queue (seen now (dedup_key event) p.dedup) p
    ]
  ]

-- How the callback ended.
pub data Callback : Type 0 where
  returned raised : Callback

abbrev pub count : {E C : Type 0} → Callback → BoundedEventQueue E → Pipeline E C → Pipeline E C
count returned queue p = record p { queue = queue; in_flight = none; processed = p.processed + 1 }
count raised queue p = record p {
  queue = queue;
  in_flight = none;
  consumer_errors = p.consumer_errors + 1;
}

-- The rest of the turn: the counter by how the callback ended, and `task_done`.
unfoldable pub finish : {E C : Type 0} → Callback → Pipeline E C → Option (Pipeline E C)
finish outcome p = elim p.in_flight [
  | none ↦ none
  | some _ ↦ elim (Queue.task_done p.queue) [
    | none ↦ none
    | some queue ↦ some (count outcome queue p)
  ]
]

-- A collector's `await queue.put(event)`; a suspended put changes nothing.
abbrev with_put : {E C : Type 0} → Put E → Pipeline E C → Pipeline E C
with_put (taken queue) p = record p { queue = queue }
with_put (refused queue) p = record p { queue = queue }
with_put suspended p = p

unfoldable pub produce : {E C : Type 0} → E → Pipeline E C → Pipeline E C
produce event p = with_put (Queue.put event p.queue) p
