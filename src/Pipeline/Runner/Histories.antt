-- ===== src/Pipeline/Runner/Histories.antt =====
-- The account holds in every reachable state of a pipeline, and what it gives to a caller of `join`.
use sentinel_linux.Prelude.{
  ℕ, ◌+◌, ◌≤◌, ◌≡◌, refl, ap, ◌∙◌, true, none, some, List, [], ◌∷◌, ◌++◌, length, arith, String,
  append-nil,
}
use sentinel_linux.Pipeline.Queue.{BackpressurePolicy, joined}
use sentinel_linux.Pipeline.Queue.Laws.{put-eq-taken, put-eq-refused}
use sentinel_linux.Pipeline.Runner.{Pipeline, new}
use sentinel_linux.Pipeline.Runner.Steps.{
  World, Step, accept, refuse, fetched, finished, Reach, here, next, begin, head_of,
}
use sentinel_linux.Pipeline.Runner.Turns.{Fetched, duplicate, fresh, fetch_cases, finish_cases}
use sentinel_linux.Pipeline.Runner.Accounting.{
  Accounts, enqueue-Accounts, drop-Accounts, skipped-Accounts, handed-Accounts, count-Accounts,
}

module _ {E C : Type 0} (dedup_key : E → String) where
  fetched-Accounts :
      (w : World E C) (now : ℕ) (event : E) (pipe : Pipeline E C)
      → Accounts w
      → w.clock ≤ now
      → head_of w.pipe.queue ≡ some event
      → Fetched dedup_key now w.pipe pipe
      → Accounts (record w { pipe = pipe; fetched_log = w.fetched_log ++ event ∷ []; clock = now })
  fetched-Accounts w now event pipe a later head (duplicate event' rest idle items dup left e) =
      rw (e, same_head event event' rest items head)
        (skipped-Accounts dedup_key w a now event' rest later idle items dup left)
    where
      same_head :
          (x y : E) (l : List E)
          → w.pipe.queue.items ≡ y ∷ l
          → head_of w.pipe.queue ≡ some x
          → x ≡ y
      same_head x y l i h = ground arith
  fetched-Accounts w now event pipe a later head (fresh event' rest idle items new e) =
      rw (e, same_head event event' rest items head)
        (handed-Accounts dedup_key w a now event' rest later idle items new)
    where
      same_head :
          (x y : E) (l : List E)
          → w.pipe.queue.items ≡ y ∷ l
          → head_of w.pipe.queue ≡ some x
          → x ≡ y
      same_head x y l i h = ground arith

  pub Step-Accounts : {w u : World E C} → Step dedup_key w u → Accounts w → Accounts u
  Step-Accounts {w} (accept event queue put e) a =
      let p = put-eq-taken event w.pipe.queue queue put in
      rw (e, p.1) (enqueue-Accounts w event a p.0)
  Step-Accounts {w} (refuse event queue put e) a =
      rw (e, (put-eq-refused event w.pipe.queue queue put).1) (drop-Accounts w event a)
  Step-Accounts {w} (fetched now event pipe later head f e) a =
      rw e
        (fetched-Accounts w now event pipe a later head (fetch_cases dedup_key now w.pipe pipe f))
  Step-Accounts {w} (finished outcome pipe f e) a =
      let c = finish_cases outcome w.pipe pipe f in
      rw (e, c.3) (count-Accounts dedup_key w a outcome c.0 c.1 c.2)

  begin-Accounts :
      (maxsize : ℕ) (policy : BackpressurePolicy) (ttl cap : ℕ) (p : Pipeline E C)
      → new maxsize policy ttl cap ≡ some p
      → Accounts (begin p)
  unfolding new
  begin-Accounts maxsize policy ttl cap p h = ground arith

  -- In every state that a new pipeline reaches by any interleaving of puts and turns of the
  -- consumer, the account holds: the accepted events are those fetched, in order, followed by those
  -- buffered; each fetched event is counted once, as processed, failed, deduplicated or running;
  -- the queue is within its bound and the dedup window is valid.
  pub Reach-Accounts :
      (maxsize : ℕ) (policy : BackpressurePolicy) (ttl cap : ℕ) (p : Pipeline E C) {w : World E C}
      → new maxsize policy ttl cap ≡ some p
      → Reach dedup_key (begin p) w
      → Accounts w
  Reach-Accounts maxsize policy ttl cap p h here = begin-Accounts maxsize policy ttl cap p h
  Reach-Accounts maxsize policy ttl cap p h (next r s) =
      Step-Accounts s (Reach-Accounts maxsize policy ttl cap p h r)

length-zero : {E : Type 0} (l : List E) → length l ≡ 0 → l ≡ []
length-zero [] h = refl
length-zero (x ∷ l) h = absurd (omega arith)

-- What `stop` may rely on once `queue.join()` has returned.
pub record Drained {E C : Type 0} (w : World E C) : Type 0 where
  pub nothing_buffered : w.pipe.queue.items ≡ []
  pub nothing_running : w.pipe.in_flight ≡ none
  pub all_fetched : w.accepted_log ≡ w.fetched_log
  pub all_counted :
      length w.accepted_log ≡ w.pipe.processed + w.pipe.deduped + w.pipe.consumer_errors

drained : {E C : Type 0} (w : World E C) → Accounts w → w.pipe.queue.unfinished ≡ 0 → Drained w
drained w a done = record {
  nothing_buffered = empty;
  nothing_running = ground (arith, a.unfinished, done);
  all_fetched = a.in_order ∙ ap (λ l. w.fetched_log ++ l) empty ∙ append-nil w.fetched_log;
  all_counted = omega (arith, a.logged, a.settled, done);
}
  where
    empty : w.pipe.queue.items ≡ []
    empty = length-zero w.pipe.queue.items (omega (arith, a.unfinished, done))

-- When `join` returns, in any reachable state, every accepted event has been fetched and counted,
-- and no callback is running.
pub join-Drained :
    {E C : Type 0} (dedup_key : E → String) (maxsize : ℕ) (policy : BackpressurePolicy)
    (ttl cap : ℕ) (p : Pipeline E C) {w : World E C}
    → new maxsize policy ttl cap ≡ some p
    → Reach dedup_key (begin p) w
    → joined w.pipe.queue ≡ true
    → Drained w
unfolding joined
join-Drained dedup_key maxsize policy ttl cap p {w} h r j =
    drained w (Reach-Accounts dedup_key maxsize policy ttl cap p h r) (ground arith)
