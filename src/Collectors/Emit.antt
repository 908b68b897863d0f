-- ===== src/Collectors/Emit.antt =====
-- How the collectors of src/sentinel/collectors/ turn observations into events: each is built as a
-- raw record, then normalized, and what survives is put on the queue in order. What the queue does
-- with it is Pipeline/Queue.antt.
use sentinel_linux.Prelude.{
  ℕ, ◌+◌, ◌≡◌, Bool, Option, none, some, List, [], ◌∷◌, String, length, arith, Bool-cases, inl, inr,
}
use sentinel_linux.Events.{Event}
use sentinel_linux.RawEvents.{RawEvent}
use sentinel_linux.Normalizer.{Normalizer, normalize, build, deliver, map_raw}

-- The counters of a collector: those of its normalizer, and `_emitted` (`_parsed`).
pub record Emitter : Type 0 where
  pub normalizer : Normalizer
  pub emitted : ℕ

-- Each observation built, with one reading of the clock for each; the comprehension drops the
-- rejected ones.
unfoldable pub cons_some : Option RawEvent → List RawEvent → List RawEvent
cons_some none raws = raws
cons_some (some raw) raws = raw ∷ raws

module _ {C : Type 0} (raw_of : ℕ → C → Option RawEvent) (clock : ℕ → ℕ) where
  unfoldable pub build_all : ℕ → List C → Normalizer → Normalizer × List RawEvent
  unfolding build cons_some
  build_all reading [] n = (n, [])
  build_all reading (c ∷ cs) n =
      let one = build (raw_of (clock reading) c) n in
      let rest = build_all (reading + 1) cs one.0 in (rest.0, cons_some one.1 rest.1)

-- Each raw record is counted once, as an event that is put or as a dead letter.
pub record Emits (before after : Emitter) (records : ℕ) (events : List Event) : Type 0 where
  pub each :
      after.emitted + after.normalizer.dead_letters
      ≡ before.emitted + before.normalizer.dead_letters + records
  pub put : after.emitted ≡ before.emitted + length events

-- What the loop body does with a normalized record: count it and put it, or continue.
abbrev pub take_event : Normalizer × Option Event → ℕ → Emitter × List Event
take_event (n, none) emitted = (record { normalizer = n; emitted = emitted }, [])
take_event (n, some event) emitted = (record { normalizer = n; emitted = emitted + 1 }, event ∷ [])

abbrev cons_all : List Event → List Event → List Event
cons_all [] es = es
cons_all (e ∷ ds) es = e ∷ cons_all ds es

length-cons_all : (ds es : List Event) → length (cons_all ds es) ≡ length ds + length es
length-cons_all [] es = omega arith
length-cons_all (d ∷ ds) es = omega (arith, length-cons_all ds es)

module _ (sha256 : String → String) (local_hostname : String) (valid_event : Event → Bool) where
  -- `for raw in records: …`
  unfoldable pub emit_all : List RawEvent → Emitter → Emitter × List Event
  unfolding normalize
  emit_all [] s = (s, [])
  emit_all (raw ∷ raws) s =
      let one =
        take_event (normalize sha256 local_hostname valid_event raw s.normalizer) s.emitted in
      let rest = emit_all raws one.0 in (rest.0, cons_all one.1 rest.1)

  one_emitted :
      (raw : RawEvent) (s : Emitter)
      → let o =
          take_event (normalize sha256 local_hostname valid_event raw s.normalizer) s.emitted in
        Emits s o.0 1 o.1
  unfolding normalize
  one_emitted raw s = go (map_raw sha256 local_hostname raw)
    where
      go :
          (m : Option Event)
          → let o = take_event (deliver valid_event m s.normalizer) s.emitted in Emits s o.0 1 o.1
      go none = record { each = omega arith; put = omega arith }
      go (some e) = elim (Bool-cases (valid_event e)) [
        | inl ok ↦ rw ok (record { each = omega arith; put = omega arith })
        | inr bad ↦ rw bad (record { each = omega arith; put = omega arith })
      ]

  pub emit_all-Emits :
      (raws : List RawEvent) (s : Emitter)
      → Emits s (emit_all raws s).0 (length raws) (emit_all raws s).1
  unfolding emit_all
  emit_all-Emits [] s = record { each = omega arith; put = omega arith }
  emit_all-Emits (raw ∷ raws) s =
      let o = take_event (normalize sha256 local_hostname valid_event raw s.normalizer) s.emitted in
      let one = one_emitted raw s in
      let rest = emit_all-Emits raws o.0 in
      record {
        each = omega (arith, one.each, rest.each);
        put = omega (arith, one.put, rest.put, length-cons_all o.1 (emit_all raws o.0).1);
      }

  module _ {C : Type 0} (raw_of : ℕ → C → Option RawEvent) (clock : ℕ → ℕ) where
    -- One poll's observations, built and emitted.
    unfoldable pub publish : List C → Emitter → Emitter × List Event
    unfolding build_all emit_all
    publish cs s =
        let built = build_all raw_of clock 0 cs s.normalizer in
        emit_all built.1 (record s { normalizer = built.0 })

    built_counted :
        (reading : ℕ) (cs : List C) (n : Normalizer)
        → let o = build_all raw_of clock reading cs n in
          o.0.dead_letters + length o.1 ≡ n.dead_letters + length cs
    unfolding build_all
    built_counted reading [] n = omega arith
    built_counted reading (c ∷ cs) n =
        go (raw_of (clock reading) c) (λ m. built_counted (reading + 1) cs m)
      where
        go :
            (r : Option RawEvent)
            → ((m : Normalizer)
                → let o = build_all raw_of clock (reading + 1) cs m in
                  o.0.dead_letters + length o.1 ≡ m.dead_letters + length cs)
            → let one = build r n in
              let rest = build_all raw_of clock (reading + 1) cs one.0 in
              rest.0.dead_letters + length (cons_some one.1 rest.1)
              ≡ n.dead_letters + length (c ∷ cs)
        go none ih = omega (arith, ih (record n { dead_letters = n.dead_letters + 1 }))
        go (some raw) ih = omega (arith, ih n)

    pub publish-Emits :
        (cs : List C) (s : Emitter) → Emits s (publish cs s).0 (length cs) (publish cs s).1
    unfolding publish
    publish-Emits cs s =
        let built = build_all raw_of clock 0 cs s.normalizer in
        let out = emit_all-Emits built.1 (record s { normalizer = built.0 }) in
        record {
          each = omega (arith, out.each, built_counted 0 cs s.normalizer);
          put = omega (arith, out.put);
        }
