-- ===== src/Alerting/Manager/Counters.antt =====
-- What `AlertManager.process` of src/sentinel/alerting/manager.py does with a detection on each of
-- its branches, and the counters over any run.
use sentinel_linux.Prelude.{
  ℕ, ◌+◌, ◌∙◌, String, ◌≤◌, ◌≡◌, ◌&&◌, refl, Bool, true, false, Option, none, some, List, [], ◌∷◌,
  length, ltb, not, arith, if◌then◌else◌, Bool-cases, inl, inr,
}
use sentinel_linux.Pipeline.Dedup.{DedupWindow, seen}
use sentinel_linux.Prelude.Eq.{text_key}
use sentinel_linux.Dict
use sentinel_linux.Detection.Schema.{Throttle}
use sentinel_linux.Detection.Engine.{Detection}
use sentinel_linux.Alerting.Model.{Alert, from_detection}
use sentinel_linux.Alerting.Manager.{
  AlertManager, process, withheld_of, throttle_for, budget_by, hits_of, by_dedup, by_throttle,
  is_throttled, withhold, notify, with_note,
}

-- A call of `process`, with the clock as its dedup window and its throttle read it.
pub record Call : Type 0 where
  pub seen_at : ℕ
  pub hit_at : ℕ
  pub detection : Detection

abbrev pub handle : Call → AlertManager → AlertManager × Option Alert
handle c m = process c.seen_at c.hit_at c.detection m

-- The calls one after the other, and what each returned.
unfoldable pub run : List Call → AlertManager → AlertManager × List (Option Alert)
run [] m = (m, [])
run (c ∷ calls) m = let one = handle c m in let rest = run calls one.0 in (rest.0, one.1 ∷ rest.1)

abbrev pub stored : Option Alert → ℕ
stored none = 0
stored (some alert) = 1

abbrev pub told : Option Alert → ℕ
told none = 0
told (some alert) = if alert.notified then 1 else 0

abbrev pub total : (Option Alert → ℕ) → List (Option Alert) → ℕ
total f [] = 0
total f (o ∷ os) = f o + total f os

-- The counters after, from the counters before: `n` detections, `s` alerts stored, `t` notified.
pub record Counts (m m' : AlertManager) (n s t : ℕ) : Type 0 where
  pub each :
      m'.emitted + m'.suppressed_severity + m'.deduped + m'.throttled
      ≡ m.emitted + m.suppressed_severity + m.deduped + m.throttled + n
  pub kept : m'.emitted + m'.throttled ≡ m.emitted + m.throttled + s
  pub notified : m'.emitted ≡ m.emitted + t

with_note_notified : (w : ℕ) (a : Alert) → (with_note w a).notified ≡ a.notified
with_note_notified w a = ground arith

by_throttle-Counts :
    (a : Alert) (m m' : AlertManager) (throttled : Bool)
    → a.notified ≡ true
    → m'.emitted ≡ m.emitted
    → m'.suppressed_severity ≡ m.suppressed_severity
    → m'.deduped ≡ m.deduped
    → m'.throttled ≡ m.throttled
    → let o = by_throttle a (m', throttled) in Counts m o.0 1 (stored o.1) (told o.1)
unfolding withhold notify
by_throttle-Counts a m m' true note e s d t = record {
  each = omega (arith, e, s, d, t);
  kept = omega (arith, e, s, d, t);
  notified = omega (arith, e);
}
by_throttle-Counts a m m' false note e s d t =
    rw (with_note_notified, note)
      (record {
        each = omega (arith, e, s, d, t);
        kept = omega (arith, e, s, d, t);
        notified = omega (arith, e);
      })

by_dedup-Counts :
    (hit_at : ℕ) (a : Alert) (m : AlertManager) (answer : DedupWindow × Bool)
    → a.notified ≡ true
    → let o = by_dedup hit_at a answer m in Counts m o.0 1 (stored o.1) (told o.1)
unfolding is_throttled
by_dedup-Counts hit_at a m (dedup, true) note = record {
  each = omega arith;
  kept = omega arith;
  notified = omega arith;
}
by_dedup-Counts hit_at a m (dedup, false) note =
    let answer = is_throttled hit_at a.rule_id (record m { dedup = dedup }) in
    by_throttle-Counts a m answer.0 answer.1 note refl refl refl refl

handle-Counts :
    (c : Call) (m : AlertManager)
    → Counts m (handle c m).0 1 (stored (handle c m).1) (told (handle c m).1)
unfolding process from_detection
handle-Counts c m = elim (Bool-cases (ltb c.detection.severity m.min_severity)) [
  | inl low ↦ rw low (record { each = omega arith; kept = omega arith; notified = omega arith })
  | inr high ↦
      let alert = from_detection c.detection in
      rw high (by_dedup-Counts c.hit_at alert m (seen c.seen_at alert.dedup_key m.dedup) refl)
]

-- Over any run of the manager each detection is counted once, as emitted, below the severity floor,
-- deduplicated or throttled; an alert is returned to be stored for exactly those emitted or
-- throttled, and marked as notified for exactly those emitted.
pub run-Counts :
    (calls : List Call) (m : AlertManager)
    → let o = run calls m in Counts m o.0 (length calls) (total stored o.1) (total told o.1)
unfolding run
run-Counts [] m = record { each = omega arith; kept = omega arith; notified = omega arith }
run-Counts (c ∷ calls) m =
    let one = handle-Counts c m in
    let rest = run-Counts calls (handle c m).0 in
    record {
      each = omega (arith, one.each, rest.each);
      kept = omega (arith, one.kept, rest.kept);
      notified = omega (arith, one.notified, rest.notified);
    }

by_throttle-some :
    (a : Alert) (answer : AlertManager × Bool)
    → (alert : Alert) × ((by_throttle a answer).1 ≡ some alert)
      × (alert.event_id ≡ a.event_id)
      × (alert.rule_id ≡ a.rule_id)
      × (alert.severity ≡ a.severity)
      × (alert.notified ≡ (a.notified && not answer.1))
unfolding withhold notify
by_throttle-some a (m, true) = (record a { notified = false }, refl, refl, refl, refl, ground arith)
by_throttle-some a (m, false) = (
  with_note (withheld_of a.rule_id m) a,
  refl,
  ground arith,
  ground arith,
  ground arith,
  ground arith,
)

-- The budget of a rule does not depend on the dedup window.
pub throttle_for-dedup :
    (rule_id : String) (dedup : DedupWindow) (m : AlertManager)
    → throttle_for rule_id (record m { dedup = dedup }) ≡ throttle_for rule_id m
unfolding throttle_for
throttle_for-dedup rule_id dedup m = go (Dict.get rule_id m.rule_throttles)
  where
    go : (o : Option Throttle) → budget_by o (record m { dedup = dedup }) ≡ budget_by o m
    go none = refl
    go (some own) = refl

by_dedup-some :
    (hit_at : ℕ) (a : Alert) (m : AlertManager) (answer : DedupWindow × Bool)
    → answer.1 ≡ false
    → a.notified ≡ true
    → (alert : Alert) × ((by_dedup hit_at a answer m).1 ≡ some alert)
      × (alert.event_id ≡ a.event_id)
      × (alert.rule_id ≡ a.rule_id)
      × (alert.severity ≡ a.severity)
      × (alert.notified ≡ not (is_throttled hit_at a.rule_id m).1)
unfolding is_throttled hits_of
by_dedup-some hit_at a m (dedup, true) new note = cc
by_dedup-some hit_at a m (dedup, false) new note =
    let r = by_throttle-some a (is_throttled hit_at a.rule_id (record m { dedup = dedup })) in
    (r.0, r.1, r.2, r.3, r.4, r.5 ∙ rw (note, throttle_for-dedup) refl)

-- A detection at or above the severity floor whose key is not in the dedup window is never lost:
-- `process` returns an alert for its rule and its event, whatever the throttle says, and the
-- throttle decides only whether the alert is marked as notified.
pub fresh_stored :
    (seen_at hit_at : ℕ) (d : Detection) (m : AlertManager)
    → m.min_severity ≤ d.severity
    → (seen seen_at (from_detection d).dedup_key m.dedup).1 ≡ false
    → (alert : Alert) × ((process seen_at hit_at d m).1 ≡ some alert)
      × (alert.event_id ≡ d.event_id)
      × (alert.rule_id ≡ d.rule_id)
      × (alert.severity ≡ d.severity)
      × (alert.notified ≡ not (is_throttled hit_at d.rule_id m).1)
unfolding process from_detection is_throttled
fresh_stored seen_at hit_at d m high new =
    let alert = from_detection d in
    rw (at_floor d.severity m.min_severity high)
      (by_dedup-some hit_at alert m (seen seen_at alert.dedup_key m.dedup) new refl)
  where
    at_floor : (severity floor : ℕ) → floor ≤ severity → ltb severity floor ≡ false
    at_floor severity floor h = ground arith
