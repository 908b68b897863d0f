-- ===== src/Pipeline/Runner/Steps.antt =====
-- The interleavings of collectors and the consumer loop as a step relation, with the logs of what
-- was accepted and what the loop has fetched.
use sentinel_linux.Prelude.{ℕ, ◌+◌, ◌≤◌, ◌≡◌, Option, none, some, List, [], ◌∷◌, ◌++◌, String}
use sentinel_linux.Pipeline.Queue
use sentinel_linux.Pipeline.Queue.{BoundedEventQueue, taken, refused}
use sentinel_linux.Pipeline.Runner.{Pipeline, fetch, finish, Callback}

-- A pipeline with its history: how many events were offered to a queue that answered, the accepted
-- and the fetched events, oldest first, and the latest clock value.
pub record World (E C : Type 0) : Type 0 where
  pub pipe : Pipeline E C
  pub offered : ℕ
  pub accepted_log : List E
  pub fetched_log : List E
  pub clock : ℕ

-- The event at the head of the queue, which a fetch takes.
abbrev pub head_of : {E : Type 0} → BoundedEventQueue E → Option E
head_of q = elim q.items [ [] ↦ none | event ∷ _ ↦ some event ]

-- One step: a put that the queue takes or refuses (a suspended put is no step), a turn of the
-- consumer loop up to the callback, or the end of the callback and of the turn.
pub data Step {E C : Type 0} (dedup_key : E → String) (w u : World E C) : Type 0 where
  accept :
      (event : E) (queue : BoundedEventQueue E)
      → Queue.put event w.pipe.queue ≡ taken queue
      → u ≡ record w {
        pipe = record (w.pipe) { queue = queue };
        offered = w.offered + 1;
        accepted_log = w.accepted_log ++ event ∷ [];
      }
      → Step dedup_key w u
  refuse :
      (event : E) (queue : BoundedEventQueue E)
      → Queue.put event w.pipe.queue ≡ refused queue
      → u ≡ record w { pipe = record (w.pipe) { queue = queue }; offered = w.offered + 1 }
      → Step dedup_key w u
  fetched :
      (now : ℕ) (event : E) (pipe : Pipeline E C)
      → w.clock ≤ now
      → head_of w.pipe.queue ≡ some event
      → fetch dedup_key now w.pipe ≡ some pipe
      → u ≡ record w { pipe = pipe; fetched_log = w.fetched_log ++ event ∷ []; clock = now }
      → Step dedup_key w u
  finished :
      (outcome : Callback) (pipe : Pipeline E C)
      → finish outcome w.pipe ≡ some pipe
      → u ≡ record w { pipe = pipe }
      → Step dedup_key w u

pub data Reach {E C : Type 0} (dedup_key : E → String) (w : World E C) : World E C → Type 0 where
  here : Reach dedup_key w w
  next : {t u : World E C} → Reach dedup_key w t → Step dedup_key t u → Reach dedup_key w u

-- Where a history begins.
abbrev pub begin : {E C : Type 0} → Pipeline E C → World E C
begin p = record { pipe = p; offered = 0; accepted_log = []; fetched_log = []; clock = 0 }
