-- ===== src/Pipeline/Runner/Turns.antt =====
-- What a step of the consumer loop comes to, when it can be taken.
use sentinel_linux.Prelude.{
  ℕ, ◌+◌, ◌-◌, ◌≡◌, ◌≢◌, ◌⊎◌, refl, true, false, none, some, List, [], ◌∷◌, arith, String,
  Bool-cases, inl, inr,
}
use sentinel_linux.Pipeline.Dedup.{seen}
use sentinel_linux.Pipeline.Queue
use sentinel_linux.Pipeline.Queue.{BoundedEventQueue}
use sentinel_linux.Pipeline.Runner.{Pipeline, fetch, finish, Callback, count}

module _ {E C : Type 0} (dedup_key : E → String) where
  -- The pipeline after a duplicate, and after a fresh event has been handed over.
  abbrev pub skipped : ℕ → E → List E → Pipeline E C → Pipeline E C
  skipped now event rest p = record p {
    queue = record (p.queue) { items = rest; unfinished = p.queue.unfinished - 1 };
    dedup = (seen now (dedup_key event) p.dedup).0;
    deduped = p.deduped + 1;
  }

  abbrev pub handed : ℕ → E → List E → Pipeline E C → Pipeline E C
  handed now event rest p = record p {
    queue = record (p.queue) { items = rest };
    dedup = (seen now (dedup_key event) p.dedup).0;
    in_flight = some event;
  }

  pub data Fetched (now : ℕ) (p p' : Pipeline E C) : Type 0 where
    duplicate :
        (event : E) (rest : List E)
        → p.in_flight ≡ none
        → p.queue.items ≡ event ∷ rest
        → (seen now (dedup_key event) p.dedup).1 ≡ true
        → p.queue.unfinished ≢ 0
        → p' ≡ skipped now event rest p
        → Fetched now p p'
    fresh :
        (event : E) (rest : List E)
        → p.in_flight ≡ none
        → p.queue.items ≡ event ∷ rest
        → (seen now (dedup_key event) p.dedup).1 ≡ false
        → p' ≡ handed now event rest p
        → Fetched now p p'

  pub fetch_cases :
      (now : ℕ) (p p' : Pipeline E C) → fetch dedup_key now p ≡ some p' → Fetched now p p'
  unfolding fetch Queue.get Queue.task_done
  fetch_cases now p p' h = elim (items-cases p.queue.items) [
    | inl empty ↦ absurd (ground arith)
    | inr (event, rest, items) ↦ elim (Bool-cases (seen now (dedup_key event) p.dedup).1) [
      | inl dup ↦ duplicate event rest (ground arith) items dup (ground arith) (ground arith)
      | inr new ↦ fresh event rest (ground arith) items new (ground arith)
    ]
  ]
    where
      items-cases : (l : List E) → (l ≡ []) ⊎ ((event : E) × (rest : List E) × (l ≡ event ∷ rest))
      items-cases [] = inl refl
      items-cases (event ∷ rest) = inr (event, rest, refl)

pub finish_cases :
    {E C : Type 0} (outcome : Callback) (p p' : Pipeline E C)
    → finish outcome p ≡ some p'
    → (event : E) × (p.in_flight ≡ some event)
      × (p.queue.unfinished ≢ 0)
      × (p' ≡ count outcome (record (p.queue) { unfinished = p.queue.unfinished - 1 }) p)
unfolding finish Queue.task_done
finish_cases outcome p p' h = ground arith
