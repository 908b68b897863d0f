-- ===== src/Detection/Engine/Thresholds.antt =====
-- The thresholds of the engine: what one match does to its group's window, when it fires, and the
-- bounds on memory.
use sentinel_linux.Prelude.{
  ℕ, ◌*◌, ◌<◌, ◌≡◌, ◌≢◌, refl, ap, ◌∙◌, Bool, true, false, none, some, List, [], ◌∷◌, ◌++◌, length,
  leb, if◌then◌else◌, String, arith, Bool-cases, Option-cases, inl, inr, ◌⊎◌,
}
use sentinel_linux.Prelude.Eq.{pair_key, pair_same_iff}
use sentinel_linux.Dict
use sentinel_linux.Dict.{Dict, remove_oldest}
use sentinel_linux.Dict.Laws.{get-set}
use sentinel_linux.SlidingWindow.{trim}
use sentinel_linux.Events.{Event}
use sentinel_linux.Detection.Value.{Value}
use sentinel_linux.Detection.Schema.{Condition, make}
use sentinel_linux.Detection.Evaluator.{answer, evaluate, resolve_field}
use sentinel_linux.Detection.Engine.{
  Environment, DetectionEngine, window_for, slide, group_key, second, threshold_fires,
}

-- What a match at `moment` does to its window: the window that is kept, and whether the rule fires.
abbrev pub hit : ℕ → ℕ → ℕ → List ℕ → List ℕ × Bool
hit span count moment window =
    let live = trim moment span (window ++ moment ∷ []) in
    if leb count (length live) then ([], true) else (live, false)

abbrev pub stored : (String × String) → DetectionEngine → List ℕ
stored key eng = elim (Dict.get key eng.windows) [ none ↦ [] | some window ↦ window ]

abbrev pub Key : Type 0
Key = String × String

pub set_self :
    (key : Key) (w : List ℕ) (d : Dict Key (List ℕ)) → Dict.get key (Dict.set key w d) ≡ some w
set_self key w d = rw (get-set, (pair_same_iff key key).1 refl)

pub set_other :
    (key other : Key) (w : List ℕ) (d : Dict Key (List ℕ))
    → key ≢ other
    → Dict.get other (Dict.set key w d) ≡ Dict.get other d
set_other key other w d ne = ground (arith, get-set key other w d, pair_same_iff key other)

window_for-stored : (key : Key) (eng : DetectionEngine) → (window_for key eng).0 ≡ stored key eng
unfolding window_for
window_for-stored key eng = ground arith

slide-hit :
    (key : Key) (moment span count : ℕ) (w : List ℕ) (eng : DetectionEngine)
    → ((slide key moment span count (w, eng)).1 ≡ (hit span count moment w).1)
      × (Dict.get key (slide key moment span count (w, eng)).0.windows
          ≡ some (hit span count moment w).0)
unfolding slide
slide-hit key moment span count w eng =
    elim (Bool-cases (leb count (length (trim moment span (w ++ moment ∷ []))))) [
      | inl full ↦ rw full (refl, set_self key [] eng.windows)
      | inr short ↦ rw short (refl, set_self key (trim moment span (w ++ moment ∷ [])) eng.windows)
    ]

slide-other :
    (key other : Key) (moment span count : ℕ) (w : List ℕ) (eng : DetectionEngine)
    → key ≢ other
    → Dict.get other (slide key moment span count (w, eng)).0.windows ≡ Dict.get other eng.windows
unfolding slide
slide-other key other moment span count w eng ne =
    elim (Bool-cases (leb count (length (trim moment span (w ++ moment ∷ []))))) [
      | inl full ↦ rw full (set_other key other [] eng.windows ne)
      | inr short ↦
          rw short (set_other key other (trim moment span (w ++ moment ∷ [])) eng.windows ne)
    ]

window_for-other :
    (key other : Key) (eng : DetectionEngine)
    → key ≢ other
    → (Dict.has key eng.windows ≡ true) ⊎ (length eng.windows < eng.max_groups)
    → Dict.get other (window_for key eng).1.windows ≡ Dict.get other eng.windows
unfolding window_for Dict.has
window_for-other key other eng ne room = elim (Option-cases (Dict.get key eng.windows)) [
  | inr (w, known) ↦ rw (known, window_for) refl
  | inl new ↦ rw (new, window_for, below_cap room new) (set_other key other [] eng.windows ne)
]
  where
    below_cap :
        (Dict.has key eng.windows ≡ true) ⊎ (length eng.windows < eng.max_groups)
        → Dict.get key eng.windows ≡ none
        → leb eng.max_groups (length eng.windows) ≡ false
    below_cap r n = ground arith

module _ (env : Environment) (rule_id : String) (event : Event) (view : Value)
    (eng : DetectionEngine) (condition : Condition) (window_seconds count : ℕ) (group_by : String)
    (group : Value) (holds : evaluate env.search condition view ≡ answer true)
    (grouped : resolve_field group_by view ≡ some group) where
  abbrev pub key_of : Key
  key_of = (rule_id, group_key env group)

  fires-count :
      threshold_fires env rule_id (make condition window_seconds count group_by) event view eng
      ≡ some (slide key_of event.timestamp (window_seconds * second) count (window_for key_of eng))
  unfolding threshold_fires
  fires-count = rw (holds, threshold_fires, grouped) refl

  -- A match whose group field is present fires exactly when its window, with this match, holds
  -- `count` time stamps within the span, and leaves the window that `hit` computes.
  pub match-hit :
      (eng' : DetectionEngine) × (fired : Bool) × (threshold_fires env rule_id
          (make condition window_seconds count group_by)
          event
          view
          eng
        ≡ some (eng', fired))
      × (fired ≡ (hit (window_seconds * second) count event.timestamp (stored key_of eng)).1)
      × (stored key_of eng'
          ≡ (hit (window_seconds * second) count event.timestamp (stored key_of eng)).0)
  match-hit =
      let span = window_seconds * second in
      let w = window_for key_of eng in
      let s = slide-hit key_of event.timestamp span count w.0 w.1 in
      let r = slide key_of event.timestamp span count w in
      let same = window_for-stored key_of eng in
      (
        r.0,
        r.1,
        fires-count,
        s.0 ∙ ap (λ l. (hit span count event.timestamp l).1) same,
        rw (s.1, stored) (ap (λ l. (hit span count event.timestamp l).0) same),
      )

  -- It changes no other group's window, if its own is known or there is room for one more.
  pub match_isolated :
      (other : Key)
      → key_of ≢ other
      → (Dict.has key_of eng.windows ≡ true) ⊎ (length eng.windows < eng.max_groups)
      → (eng' : DetectionEngine) × (fired : Bool) × (threshold_fires env rule_id
            (make condition window_seconds count group_by)
            event
            view
            eng
          ≡ some (eng', fired))
        × (Dict.get other eng'.windows ≡ Dict.get other eng.windows)
  match_isolated other ne room =
      let span = window_seconds * second in
      let w = window_for key_of eng in
      let r = slide key_of event.timestamp span count w in
      (
        r.0,
        r.1,
        fires-count,
        slide-other key_of other event.timestamp span count w.0 w.1 ne
            ∙ window_for-other key_of other eng ne room,
      )
