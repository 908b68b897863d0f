-- ===== src/Pipeline/Queue.antt =====
-- src/sentinel/pipeline/queue.py over the behaviour of `asyncio.Queue` that it uses: a list, oldest
-- first, and the count of fetched items that are not yet `task_done`.
pub mod Laws
use sentinel_linux.Prelude.{
  ℕ, zero, suc, ◌+◌, ◌-◌, Bool, true, false, Option, none, some, List, [], ◌∷◌, ◌++◌, length, ltb,
  leb, eqb, if◌then◌else◌,
}

pub data BackpressurePolicy : Type 0 where
  block drop_newest : BackpressurePolicy

pub record BoundedEventQueue (E : Type 0) : Type 0 where
  pub maxsize : ℕ
  pub policy : BackpressurePolicy
  pub items : List E
  pub unfinished : ℕ
  pub dropped : ℕ
  pub accepted : ℕ

-- What the caller of `put` sees: it returns True or False, or stays suspended on a full queue.
pub data Put (E : Type 0) : Type 0 where
  taken refused : BoundedEventQueue E → Put E
  suspended : Put E

module _ {E : Type 0} where
  -- The constructor; `none` is its ValueError.
  unfoldable pub init : ℕ → BackpressurePolicy → Option (BoundedEventQueue E)
  init maxsize policy =
      if ltb maxsize 1
      then none
      else some (record {
        maxsize = maxsize;
        policy = policy;
        items = [];
        unfinished = 0;
        dropped = 0;
        accepted = 0;
      })

  -- `asyncio.Queue.full`
  unfoldable pub full : BoundedEventQueue E → Bool
  full q = leb q.maxsize (length q.items)

  -- `put_nowait` of a queue that is not full, and the counter of `put`.
  unfoldable pub enqueue : E → BoundedEventQueue E → BoundedEventQueue E
  enqueue event q = record q {
    items = q.items ++ event ∷ [];
    unfinished = q.unfinished + 1;
    accepted = q.accepted + 1;
  }

  -- `put` by policy: BLOCK awaits a slot, DROP_NEWEST refuses and counts.
  abbrev put_by : BackpressurePolicy → E → BoundedEventQueue E → Put E
  put_by block event q = if full q then suspended else taken (enqueue event q)
  put_by drop_newest event q =
      if full q then refused (record q { dropped = q.dropped + 1 }) else taken (enqueue event q)

  unfoldable pub put : E → BoundedEventQueue E → Put E
  unfolding full enqueue
  put event q = put_by q.policy event q

  -- `get`; `none` is the wait of an empty queue.
  unfoldable pub get : BoundedEventQueue E → Option (E × BoundedEventQueue E)
  get q = elim q.items [ [] ↦ none | event ∷ rest ↦ some (event, record q { items = rest }) ]

  -- `task_done`; `none` is the ValueError of a call too many.
  unfoldable pub task_done : BoundedEventQueue E → Option (BoundedEventQueue E)
  task_done q =
      if eqb q.unfinished 0 then none else some (record q { unfinished = q.unfinished - 1 })

  -- `join` returns at once exactly when this holds.
  unfoldable pub joined : BoundedEventQueue E → Bool
  joined q = eqb q.unfinished 0
