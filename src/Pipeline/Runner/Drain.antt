-- ===== src/Pipeline/Runner/Drain.antt =====
-- The drain of `Pipeline.stop`: the collectors have ended, and the consumer loop empties the queue.
use sentinel_linux.Prelude.{
  ℕ, ◌-◌, ◌≡◌, refl, true, false, Option, none, some, List, [], ◌∷◌, length, Bool-cases, inl, inr,
  arith, String,
}
use sentinel_linux.Pipeline.Dedup.{seen}
use sentinel_linux.Pipeline.Queue
use sentinel_linux.Pipeline.Queue.{joined}
use sentinel_linux.Pipeline.Runner.{Pipeline, fetch, finish, Callback, returned, raised, count}
use sentinel_linux.Pipeline.Runner.Turns.{skipped, handed}

module _ {E C : Type 0} (dedup_key : E → String) where
  abbrev finish_if_running : Callback → Pipeline E C → Option (Pipeline E C)
  finish_if_running outcome p = elim p.in_flight [ none ↦ some p | some _ ↦ finish outcome p ]

  -- A whole turn of `_consume`, with the clock value that it reads and how its callback ends.
  unfoldable pub turn : ℕ → Callback → Pipeline E C → Option (Pipeline E C)
  unfolding fetch finish
  turn now outcome p = elim (fetch dedup_key now p) [
    | none ↦ none
    | some p' ↦ finish_if_running outcome p'
  ]

  unfoldable pub turns : List (ℕ × Callback) → Pipeline E C → Option (Pipeline E C)
  turns [] p = some p
  turns ((now, outcome) ∷ rest) p = elim (turn now outcome p) [
    | none ↦ none
    | some p' ↦ turns rest p'
  ]

  -- The loop is between turns, and what is unfinished is what is buffered.
  pub record IsIdle (p : Pipeline E C) : Type 0 where
    pub idle : p.in_flight ≡ none
    pub buffered : p.queue.unfinished ≡ length p.queue.items

  ended : ℕ → Callback → E → List E → Pipeline E C → Pipeline E C
  ended now outcome event rest p =
      let h = handed dedup_key now event rest p in
      count outcome (record (h.queue) { unfinished = h.queue.unfinished - 1 }) h

  module _ (now : ℕ) (p : Pipeline E C) (event : E) (rest : List E) (i : IsIdle p)
      (items : p.queue.items ≡ event ∷ rest) where
    fresh_turn :
        (outcome : Callback)
        → (seen now (dedup_key event) p.dedup).1 ≡ false
        → (turn now outcome p ≡ some (ended now outcome event rest p))
          × ((ended now outcome event rest p).queue.items ≡ rest)
          × IsIdle (ended now outcome event rest p)
    unfolding turn ended Queue.get Queue.task_done
    fresh_turn returned new = (ground (arith, i.idle, i.buffered), refl, ground (arith, i.buffered))
    fresh_turn raised new = (ground (arith, i.idle, i.buffered), refl, ground (arith, i.buffered))

    duplicate_turn :
        (outcome : Callback)
        → (seen now (dedup_key event) p.dedup).1 ≡ true
        → (turn now outcome p ≡ some (skipped dedup_key now event rest p))
          × IsIdle (skipped dedup_key now event rest p)
    unfolding turn Queue.get Queue.task_done
    duplicate_turn outcome dup = (ground (arith, i.idle, i.buffered), ground (arith, i.buffered))

    turn_progress :
        (outcome : Callback)
        → (p' : Pipeline E C) × (turn now outcome p ≡ some p') × (p'.queue.items ≡ rest) × IsIdle p'
    turn_progress outcome = elim (Bool-cases (seen now (dedup_key event) p.dedup).1) [
      | inl dup ↦
          let t = duplicate_turn outcome dup in (skipped dedup_key now event rest p, t.0, refl, t.1)
      | inr new ↦ let t = fresh_turn outcome new in (ended now outcome event rest p, t.0, t.1, t.2)
    ]

  -- As many turns as events are buffered end the drain, whatever the clock and the callbacks do:
  -- none of them has to wait, the queue is then empty, and `join` returns.
  pub turns_drain :
      (script : List (ℕ × Callback)) (p : Pipeline E C)
      → IsIdle p
      → length script ≡ length p.queue.items
      → (p' : Pipeline E C) × (turns script p ≡ some p')
        × (p'.queue.items ≡ [])
        × (joined p'.queue ≡ true)
  unfolding turns joined
  turns_drain script p i h = go script p.queue.items p i refl h
    where
      go :
          (script : List (ℕ × Callback)) (l : List E) (p : Pipeline E C)
          → IsIdle p
          → p.queue.items ≡ l
          → length script ≡ length l
          → (p' : Pipeline E C) × (turns script p ≡ some p')
            × (p'.queue.items ≡ [])
            × (joined p'.queue ≡ true)
      go [] [] p i e h = (p, refl, e, ground (arith, i.buffered))
      go [] (x ∷ l) p i e h = absurd (omega arith)
      go (s ∷ script) [] p i e h = absurd (omega arith)
      go ((now, outcome) ∷ script) (x ∷ l) p i e h =
          let t = turn_progress now p x l i e outcome in
          let r = go script l t.0 t.3 t.2 (omega arith) in (r.0, rw (turns, t.1) r.1, r.2, r.3)
