-- ===== src/Pipeline/Queue/Laws.antt =====
-- `put` of src/sentinel/pipeline/queue.py under the backpressure policies.
use sentinel_linux.Prelude.{
  ℕ, ◌+◌, ◌≤◌, ◌≡◌, refl, true, false, some, [], ◌∷◌, ◌++◌, length, length-append, arith, inl, inr,
  Bool-cases,
}
use sentinel_linux.Pipeline.Queue.{
  BoundedEventQueue, BackpressurePolicy, block, drop_newest, Put, taken, refused, suspended, full,
  enqueue, put, init, put_by,
}

-- The bound on memory, and the account of every event that is not yet done.
pub record IsValid {E : Type 0} (q : BoundedEventQueue E) : Type 0 where
  pub positive : 1 ≤ q.maxsize
  pub bounded : length q.items ≤ q.maxsize
  pub pending : length q.items ≤ q.unfinished
  pub counted : q.unfinished ≤ q.accepted

-- What `put` may come to, from a queue `q`: the policy decides what a full queue does.
pub data PutOutcome {E : Type 0} (event : E) (q : BoundedEventQueue E) (r : Put E) : Type 0 where
  accepts :
      (q' : BoundedEventQueue E)
      → r ≡ taken q'
      → full q ≡ false
      → q'.items ≡ q.items ++ event ∷ []
      → q'.accepted ≡ q.accepted + 1
      → q'.dropped ≡ q.dropped
      → IsValid q'
      → PutOutcome event q r
  drops :
      (q' : BoundedEventQueue E)
      → r ≡ refused q'
      → full q ≡ true
      → q.policy ≡ drop_newest
      → q'.items ≡ q.items
      → q'.accepted ≡ q.accepted
      → q'.dropped ≡ q.dropped + 1
      → IsValid q'
      → PutOutcome event q r
  waits : r ≡ suspended → full q ≡ true → q.policy ≡ block → PutOutcome event q r

module _ {E : Type 0} where
  pub init-IsValid :
      (maxsize : ℕ) (policy : BackpressurePolicy) {q : BoundedEventQueue E}
      → init maxsize policy ≡ some q
      → IsValid q
  unfolding init
  init-IsValid maxsize policy h = ground arith

  pub enqueue-IsValid :
      (event : E) {q : BoundedEventQueue E} → IsValid q → full q ≡ false → IsValid (enqueue event q)
  unfolding enqueue full
  enqueue-IsValid event {q} v h = record {
    positive = v.positive;
    bounded = ground (arith, length-append q.items (event ∷ []));
    pending = omega (arith, v.pending, length-append q.items (event ∷ []));
    counted = omega (arith, v.counted);
  }

  policy-put :
      (policy : BackpressurePolicy) (event : E) (q : BoundedEventQueue E)
      → q.policy ≡ policy
      → IsValid q
      → PutOutcome event q (put_by policy event q)
  policy-put block event q p v = elim (Bool-cases (full q)) [
    | inl f ↦ rw f (waits refl f p)
    | inr f ↦ rw f (
        accepts (enqueue event q) refl f (unfold enqueue in refl) (unfold enqueue in refl)
          (unfold enqueue in refl) (enqueue-IsValid event v f))
  ]
  policy-put drop_newest event q p v = elim (Bool-cases (full q)) [
    | inl f ↦ rw f (
        drops (record q { dropped = q.dropped + 1 }) refl f p refl refl refl
          (record {
            positive = v.positive;
            bounded = v.bounded;
            pending = v.pending;
            counted = v.counted;
          }))
    | inr f ↦ rw f (
        accepts (enqueue event q) refl f (unfold enqueue in refl) (unfold enqueue in refl)
          (unfold enqueue in refl) (enqueue-IsValid event v f))
  ]

  -- `put` on a valid queue: below the cap the event is appended and counted; on a full queue BLOCK
  -- waits and DROP_NEWEST refuses and counts, leaving the items alone. The queue stays valid.
  pub put_outcome :
      (event : E) (q : BoundedEventQueue E) → IsValid q → PutOutcome event q (put event q)
  put_outcome event q v = unfold put in policy-put q.policy event q refl v

module _ {E : Type 0} (event : E) (q : BoundedEventQueue E) where
  taken-cases :
      (policy : BackpressurePolicy) (q' : BoundedEventQueue E)
      → put_by policy event q ≡ taken q'
      → (full q ≡ false) × (q' ≡ enqueue event q)
  taken-cases block q' h = ground arith
  taken-cases drop_newest q' h = ground arith

  refused-cases :
      (policy : BackpressurePolicy) (q' : BoundedEventQueue E)
      → put_by policy event q ≡ refused q'
      → (full q ≡ true) × (q' ≡ record q { dropped = q.dropped + 1 })
  refused-cases block q' h = ground arith
  refused-cases drop_newest q' h = ground arith

  pub put-eq-taken :
      (q' : BoundedEventQueue E)
      → put event q ≡ taken q'
      → (full q ≡ false) × (q' ≡ enqueue event q)
  put-eq-taken q' h = taken-cases q.policy q' (unfold put in h)

  pub put-eq-refused :
      (q' : BoundedEventQueue E)
      → put event q ≡ refused q'
      → (full q ≡ true) × (q' ≡ record q { dropped = q.dropped + 1 })
  put-eq-refused q' h = refused-cases q.policy q' (unfold put in h)
