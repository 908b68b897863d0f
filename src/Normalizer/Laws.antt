-- ===== src/Normalizer/Laws.antt =====
-- What src/sentinel/normalizer/mapper.py guarantees of the events it makes.
use mathlib.Core.Path.{subst}
use sentinel_linux.Prelude.{
  ℕ, ◌+◌, ◌≤◌, ◌≡◌, refl, Bool, true, Option, none, some, List, [], ◌∷◌, length, All, String,
  Bool-cases, inl, inr, arith, some_injective,
}
use sentinel_linux.Events.{Event, EventOutcome}
use sentinel_linux.Events.Ids.{compute_id}
use sentinel_linux.RawEvents.{
  RawEvent, RawAuthEvent, auth_event, process_event, file_event, network_event,
}
use sentinel_linux.Normalizer.{
  auth_identity, process_identity, file_identity, network_identity, map_raw, map_auth, map_process,
  map_file, map_network, with_outcome, outcome_of, Normalizer, normalize, deliver,
}

-- The parts that a raw record's event id is made of.
abbrev pub identity : RawEvent → List String
identity (auth_event raw) = auth_identity raw
identity (process_event raw) = process_identity raw
identity (file_event raw) = file_identity raw
identity (network_event raw) = network_identity raw

module _ (sha256 : String → String) (local_hostname : String) where
  -- A mapped event carries the digest of its identity, and a severity in the band of ECS.
  record Mapped (raw : RawEvent) (e : Event) : Type 0 where
    pub id : e.meta.id ≡ compute_id sha256 (identity raw)
    pub band : e.meta.severity ≤ 7

  auth-Mapped :
      (raw : RawAuthEvent) (o : Option EventOutcome) (e : Event)
      → with_outcome sha256 local_hostname raw o ≡ some e
      → Mapped (auth_event raw) e
  auth-Mapped raw none e h = cc
  auth-Mapped raw (some outcome) e h =
      subst (Mapped (auth_event raw)) (some_injective h) (record { id = refl; band = omega arith })

  map_raw-Mapped :
      (raw : RawEvent) (e : Event) → map_raw sha256 local_hostname raw ≡ some e → Mapped raw e
  unfolding map_raw map_auth map_process map_file map_network
  map_raw-Mapped (auth_event raw) e h = auth-Mapped raw (outcome_of raw.outcome) e h
  map_raw-Mapped (process_event raw) e h =
      subst (Mapped (process_event raw)) (some_injective h)
        (record { id = refl; band = omega arith })
  map_raw-Mapped (file_event raw) e h =
      subst (Mapped (file_event raw)) (some_injective h) (record { id = refl; band = omega arith })
  map_raw-Mapped (network_event raw) e h =
      subst (Mapped (network_event raw)) (some_injective h)
        (record { id = refl; band = omega arith })

module _ (sha256 : String → String) (local_hostname : String) (valid_event : Event → Bool) where
  -- The records one after the other, and what each gave.
  unfoldable pub normalize_all : List RawEvent → Normalizer → Normalizer × List (Option Event)
  normalize_all [] n = (n, [])
  normalize_all (raw ∷ raws) n =
      let one = normalize sha256 local_hostname valid_event raw n in
      let rest = normalize_all raws one.0 in (rest.0, one.1 ∷ rest.1)

  -- An event that left the normalizer is valid, and in the severity band.
  abbrev pub IsSound : Option Event → Type 0
  IsSound none = Unit
  IsSound (some e) = (valid_event e ≡ true) × (e.meta.severity ≤ 7)

  abbrev pub events_in : List (Option Event) → ℕ
  events_in [] = 0
  events_in (none ∷ os) = events_in os
  events_in (some e ∷ os) = 1 + events_in os

  -- What a run leaves: each record counted once, each event counted and sound.
  pub record Normalized (before : Normalizer) (raws : List RawEvent)
      (o : Normalizer × List (Option Event)) : Type 0 where
    pub each :
        o.0.normalized + o.0.dead_letters ≡ before.normalized + before.dead_letters + length raws
    pub kept : o.0.normalized ≡ before.normalized + events_in o.1
    pub sound : All IsSound o.1

  one-Normalized :
      (raw : RawEvent) (n : Normalizer)
      → let o = normalize sha256 local_hostname valid_event raw n in
        Normalized n (raw ∷ []) (o.0, o.1 ∷ [])
  unfolding normalize
  one-Normalized raw n = go (map_raw sha256 local_hostname raw) refl
    where
      go :
          (o : Option Event)
          → map_raw sha256 local_hostname raw ≡ o
          → Normalized n (raw ∷ []) ((deliver valid_event o n).0, (deliver valid_event o n).1 ∷ [])
      go none h = record { each = omega arith; kept = omega arith; sound = (tt, tt) }
      go (some e) h = elim (Bool-cases (valid_event e)) [
        | inl ok ↦ rw ok (record {
          each = omega arith;
          kept = omega arith;
          sound = ((ok, (map_raw-Mapped sha256 local_hostname raw e h).band), tt);
        })
        | inr bad ↦ rw bad (record { each = omega arith; kept = omega arith; sound = (tt, tt) })
      ]

  events_in-cons :
      (o : Option Event) (os : List (Option Event))
      → events_in (o ∷ os) ≡ events_in (o ∷ []) + events_in os
  events_in-cons none os = omega arith
  events_in-cons (some e) os = omega arith

  -- Over any run each raw record is counted once, as normalized or as a dead letter; exactly the
  -- normalized ones give an event; and every event that leaves is accepted by the event model and has
  -- a severity from 0 to 7.
  pub run-Normalized :
      (raws : List RawEvent) (n : Normalizer) → Normalized n raws (normalize_all raws n)
  unfolding normalize_all
  run-Normalized [] n = record { each = omega arith; kept = omega arith; sound = tt }
  run-Normalized (raw ∷ raws) n =
      let one = one-Normalized raw n in
      let first = normalize sha256 local_hostname valid_event raw n in
      let rest = run-Normalized raws first.0 in
      record {
        each = omega (arith, one.each, rest.each);
        kept =
            omega
              (arith, one.kept, rest.kept, events_in-cons first.1 (normalize_all raws first.0).1);
        sound = (one.sound.0, rest.sound);
      }
