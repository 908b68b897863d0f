-- ===== src/Alerting/Lanes/Accounting.antt =====
-- What becomes of the alerts that a lane is offered (`_SinkLane` of
-- src/sentinel/alerting/manager.py), over any interleaving of offers and turns of its worker.
use sentinel_linux.Prelude.{
  ℕ, ◌+◌, ◌≤◌, ◌≡◌, refl, Bool, true, false, Option, none, some, List, [], ◌∷◌, length,
  length-append, arith, String, inl, inr, Bool-cases, ◌⊎◌, some_injective,
}
use mathlib.Core.Path.{subst}
use sentinel_linux.Alerting.Model.{Alert}
use sentinel_linux.Alerting.Lanes.{
  SinkLane, lane, lane_full, next_delivery, settle, offer, begin_delivery, end_delivery, Emit, sent,
  failed, stop,
}

-- One step of a lane, and of the number of alerts it was offered.
pub data Turn : ℕ → SinkLane → ℕ → SinkLane → Type 0 where
  offered : {n : ℕ} {l : SinkLane} (alert : Alert) → Turn n l (n + 1) (offer alert l)
  begun : {n : ℕ} {l l' : SinkLane} → begin_delivery l ≡ some l' → Turn n l n l'
  ended :
      {n : ℕ} {l l' : SinkLane} (outcome : Emit) → end_delivery outcome l ≡ some l' → Turn n l n l'

pub data Lane (start : SinkLane) : ℕ → SinkLane → Type 0 where
  fresh : Lane start 0 start
  then_turn : {n n' : ℕ} {l l' : SinkLane} → Lane start n l → Turn n l n' l' → Lane start n' l'

abbrev pub under_way : Option Alert → ℕ
under_way none = 0
under_way (some _) = 1

-- Every alert offered is delivered, failed, dropped, queued or under way.
pub record Balanced (n : ℕ) (l : SinkLane) : Type 0 where
  pub all_told : n ≡ l.delivered + l.errors + l.dropped + length l.queue + under_way l.delivering
  pub pending : l.unfinished ≡ length l.queue + under_way l.delivering
  pub bounded : (l.maxsize ≡ 0) ⊎ (length l.queue ≤ l.maxsize)
  pub awake : (under_way l.delivering ≡ 0) ⊎ (l.worker ≡ true)

lane-Balanced :
    (name : String) (floor maxsize : ℕ) {l : SinkLane}
    → lane name floor maxsize ≡ some l
    → Balanced 0 l
unfolding lane
lane-Balanced name floor maxsize h = ground arith

offer-Balanced :
    (alert : Alert) {n : ℕ} {l : SinkLane} → Balanced n l → Balanced (n + 1) (offer alert l)
unfolding offer
offer-Balanced alert {n} {l} b = elim (Bool-cases (lane_full l)) [
  | inl full ↦ rw full (record {
    all_told = omega (arith, b.all_told);
    pending = b.pending;
    bounded = b.bounded;
    awake = inr refl;
  })
  | inr room ↦ rw room (record {
    all_told = omega (arith, b.all_told, length-append l.queue (alert ∷ []));
    pending = omega (arith, b.pending, length-append l.queue (alert ∷ []));
    bounded = ground (arith, length-append l.queue (alert ∷ []));
    awake = inr refl;
  })
]

begin-Balanced :
    {n : ℕ} {l l' : SinkLane} → begin_delivery l ≡ some l' → Balanced n l → Balanced n l'
unfolding begin_delivery
begin-Balanced {n} {l} {l'} h b = go l.worker l.delivering l.queue refl refl refl h
  where
    go :
        (w : Bool) (d : Option Alert) (q : List Alert)
        → l.worker ≡ w
        → l.delivering ≡ d
        → l.queue ≡ q
        → next_delivery w d q l ≡ some l'
        → Balanced n l'
    go true none (alert ∷ rest) ew ed eq h =
        subst (λ x. Balanced n x) (some_injective h)
          (record {
            all_told = ground (arith, b.all_told, ed, eq);
            pending = ground (arith, b.pending, ed, eq);
            bounded = ground (arith, b.bounded, eq);
            awake = inr ew;
          })
    go true none [] ew ed eq h = cc
    go true (some a) q ew ed eq h = cc
    go false d q ew ed eq h = cc

end-Balanced :
    (outcome : Emit) {n : ℕ} {l l' : SinkLane}
    → end_delivery outcome l ≡ some l'
    → Balanced n l
    → Balanced n l'
unfolding end_delivery
end-Balanced outcome {n} {l} {l'} h b = go outcome l.delivering refl h
  where
    go :
        (outcome : Emit) (d : Option Alert)
        → l.delivering ≡ d
        → settle d outcome l ≡ some l'
        → Balanced n l'
    go outcome none ed h = cc
    go sent (some a) ed h =
        subst (λ x. Balanced n x) (some_injective h)
          (record {
            all_told = ground (arith, b.all_told, ed);
            pending = ground (arith, b.pending, ed);
            bounded = b.bounded;
            awake = inl refl;
          })
    go failed (some a) ed h =
        subst (λ x. Balanced n x) (some_injective h)
          (record {
            all_told = ground (arith, b.all_told, ed);
            pending = ground (arith, b.pending, ed);
            bounded = b.bounded;
            awake = inl refl;
          })

turn-Balanced : {n n' : ℕ} {l l' : SinkLane} → Turn n l n' l' → Balanced n l → Balanced n' l'
turn-Balanced (offered alert) b = offer-Balanced alert b
turn-Balanced (begun h) b = begin-Balanced h b
turn-Balanced (ended outcome h) b = end-Balanced outcome h b

-- Over any interleaving of offers and of the worker's turns on a new lane, each alert offered is
-- delivered, failed, dropped, queued or under way, once; a bounded queue stays within its bound.
pub Lane-Balanced :
    (name : String) (floor maxsize : ℕ) {start l : SinkLane} {n : ℕ}
    → lane name floor maxsize ≡ some start
    → Lane start n l
    → Balanced n l
Lane-Balanced name floor maxsize made fresh = lane-Balanced name floor maxsize made
Lane-Balanced name floor maxsize made (then_turn r t) =
    turn-Balanced t (Lane-Balanced name floor maxsize made r)

-- After `stop` of such a lane the counters tell of every alert offered except one whose delivery
-- was under way: it is counted neither as delivered, nor as an error, nor as dropped.
pub stop_uncounted :
    (name : String) (floor maxsize : ℕ) {start l : SinkLane} {n : ℕ}
    → lane name floor maxsize ≡ some start
    → Lane start n l
    → n ≡ (stop l).0.delivered + (stop l).0.errors + (stop l).0.dropped + under_way l.delivering
unfolding stop
stop_uncounted name floor maxsize {start} {l} {n} made r =
    let b = Lane-Balanced name floor maxsize made r in go l.worker l.delivering refl refl b
  where
    go :
        (w : Bool) (d : Option Alert)
        → l.worker ≡ w
        → l.delivering ≡ d
        → Balanced n l
        → n ≡ (stop l).0.delivered + (stop l).0.errors + (stop l).0.dropped + under_way l.delivering
    go true none ew ed b = rw (ew, ed) (ground (arith, b.all_told, ed))
    go true (some a) ew ed b = rw (ew, ed) (ground (arith, b.all_told, ed))
    go false d ew ed b = rw ew (ground (arith, b.all_told))
