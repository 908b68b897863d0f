-- ===== src/Pipeline/Runner/Accounting.antt =====
-- The account of the events between the queue and the counters of src/sentinel/pipeline/runner.py.
use sentinel_linux.Prelude.{
  ℕ, ◌+◌, ◌-◌, ◌≤◌, ◌≡◌, ap, ◌∙◌, true, false, Option, none, some, List, [], ◌∷◌, ◌++◌, length,
  length-append, ◌≢◌, arith, String, append_assoc,
}
use sentinel_linux.Prelude.Eq.{text_key}
use sentinel_linux.Pipeline.Dedup
use sentinel_linux.Pipeline.Dedup.{seen}
use sentinel_linux.Pipeline.Dedup.Invariant
use sentinel_linux.Pipeline.Dedup.Seen.{seen-IsValid, seen_counts}
use sentinel_linux.Pipeline.Queue
use sentinel_linux.Pipeline.Queue.{
  BoundedEventQueue, BackpressurePolicy, taken, refused, full, enqueue,
}
use sentinel_linux.Pipeline.Queue.Laws
use sentinel_linux.Pipeline.Queue.Laws.{put-eq-taken, put-eq-refused, enqueue-IsValid}
use sentinel_linux.Pipeline.Runner.{new, Callback, returned, raised, count}
use sentinel_linux.Pipeline.Runner.Turns.{skipped, handed}
use sentinel_linux.Pipeline.Runner.Steps.{World}

-- One while a callback runs.
abbrev pub busy : {E : Type 0} → Option E → ℕ
busy none = 0
busy (some _) = 1

pub record Accounts {E C : Type 0} (w : World E C) : Type 0 where
  pub queue_valid : Queue.Laws.IsValid w.pipe.queue
  pub dedup_valid : Dedup.Invariant.IsValid w.clock w.pipe.dedup
  -- every accepted event is fetched in order, or still buffered
  pub in_order : w.accepted_log ≡ w.fetched_log ++ w.pipe.queue.items
  pub logged : length w.accepted_log ≡ w.pipe.queue.accepted
  pub offers : w.offered ≡ w.pipe.queue.accepted + w.pipe.queue.dropped
  pub unfinished : w.pipe.queue.unfinished ≡ length w.pipe.queue.items + busy w.pipe.in_flight
  pub settled :
      w.pipe.queue.accepted
      ≡ w.pipe.processed + w.pipe.deduped + w.pipe.consumer_errors + w.pipe.queue.unfinished
  pub hits : w.pipe.dedup.hits ≡ w.pipe.deduped
  pub misses :
      w.pipe.dedup.misses ≡ w.pipe.processed + w.pipe.consumer_errors + busy w.pipe.in_flight

abbrev pub after_put : {E C : Type 0} → World E C → BoundedEventQueue E → List E → World E C
after_put w q log = record w {
  pipe = record (w.pipe) { queue = q };
  offered = w.offered + 1;
  accepted_log = log;
}

module _ {E C : Type 0} (w : World E C) (event : E) (a : Accounts w) where
  pub enqueue-Accounts :
      full w.pipe.queue ≡ false
      → Accounts (after_put w (enqueue event w.pipe.queue) (w.accepted_log ++ event ∷ []))
  unfolding enqueue
  enqueue-Accounts f = record {
    queue_valid = enqueue-IsValid event a.queue_valid f;
    dedup_valid = a.dedup_valid;
    in_order = rw (a.in_order, append_assoc);
    logged = omega (arith, length-append w.accepted_log (event ∷ []), a.logged);
    offers = omega (arith, a.offers);
    unfinished = omega (arith, length-append w.pipe.queue.items (event ∷ []), a.unfinished);
    settled = omega (arith, a.settled);
    hits = a.hits;
    misses = a.misses;
  }

  pub drop-Accounts :
      Accounts
        (after_put w (record (w.pipe.queue) { dropped = w.pipe.queue.dropped + 1 }) w.accepted_log)
  drop-Accounts = record {
    queue_valid = record {
      positive = a.queue_valid.positive;
      bounded = a.queue_valid.bounded;
      pending = a.queue_valid.pending;
      counted = a.queue_valid.counted;
    };
    dedup_valid = a.dedup_valid;
    in_order = a.in_order;
    logged = a.logged;
    offers = omega (arith, a.offers);
    unfinished = a.unfinished;
    settled = a.settled;
    hits = a.hits;
    misses = a.misses;
  }

module _ {E C : Type 0} (dedup_key : E → String) (w : World E C) (a : Accounts w) where
  module _ (now : ℕ) (event : E) (rest : List E) (later : w.clock ≤ now)
      (idle : w.pipe.in_flight ≡ none) (items : w.pipe.queue.items ≡ event ∷ rest) where
    answer : Dedup.Invariant.IsValid now (seen now (dedup_key event) w.pipe.dedup).0
    answer = seen-IsValid w.clock now (dedup_key event) later a.dedup_valid

    moved : w.accepted_log ≡ (w.fetched_log ++ event ∷ []) ++ rest
    moved = rw append_assoc (a.in_order ∙ ap (λ l. w.fetched_log ++ l) items)

    pub skipped-Accounts :
        (seen now (dedup_key event) w.pipe.dedup).1 ≡ true
        → w.pipe.queue.unfinished ≢ 0
        → Accounts (record w {
          pipe = skipped dedup_key now event rest w.pipe;
          fetched_log = w.fetched_log ++ event ∷ [];
          clock = now;
        })
    skipped-Accounts dup some_left =
        let counts = (seen_counts now (dedup_key event) w.pipe.dedup).0 dup in
        record {
          queue_valid = ground (arith, a.queue_valid, items, a.unfinished, idle);
          dedup_valid = answer;
          in_order = moved;
          logged = a.logged;
          offers = a.offers;
          unfinished = ground (arith, a.unfinished, items, idle);
          settled = omega (arith, a.settled, some_left);
          hits = counts.0 ∙ ap (λ n. n + 1) a.hits;
          misses = counts.1 ∙ a.misses;
        }

    pub handed-Accounts :
        (seen now (dedup_key event) w.pipe.dedup).1 ≡ false
        → Accounts (record w {
          pipe = handed dedup_key now event rest w.pipe;
          fetched_log = w.fetched_log ++ event ∷ [];
          clock = now;
        })
    handed-Accounts new =
        let counts = (seen_counts now (dedup_key event) w.pipe.dedup).1 new in
        record {
          queue_valid = ground (arith, a.queue_valid, items, a.unfinished, idle);
          dedup_valid = answer;
          in_order = moved;
          logged = a.logged;
          offers = a.offers;
          unfinished = ground (arith, a.unfinished, items, idle);
          settled = a.settled;
          hits = counts.0 ∙ a.hits;
          misses = ground (arith, counts.1, a.misses, idle);
        }

  pub count-Accounts :
      (outcome : Callback) (event : E)
      → w.pipe.in_flight ≡ some event
      → w.pipe.queue.unfinished ≢ 0
      → Accounts (record w {
        pipe =
            count outcome
              (record (w.pipe.queue) { unfinished = w.pipe.queue.unfinished - 1 })
              w.pipe;
      })
  count-Accounts returned event running some_left = record {
    queue_valid = ground (arith, a.queue_valid, a.unfinished, running);
    dedup_valid = a.dedup_valid;
    in_order = a.in_order;
    logged = a.logged;
    offers = a.offers;
    unfinished = ground (arith, a.unfinished, running);
    settled = omega (arith, a.settled, some_left);
    hits = a.hits;
    misses = ground (arith, a.misses, running);
  }
  count-Accounts raised event running some_left = record {
    queue_valid = ground (arith, a.queue_valid, a.unfinished, running);
    dedup_valid = a.dedup_valid;
    in_order = a.in_order;
    logged = a.logged;
    offers = a.offers;
    unfinished = ground (arith, a.unfinished, running);
    settled = omega (arith, a.settled, some_left);
    hits = a.hits;
    misses = ground (arith, a.misses, running);
  }
