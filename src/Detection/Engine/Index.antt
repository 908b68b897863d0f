-- ===== src/Detection/Engine/Index.antt =====
-- The action index and its cache change nothing but the work: an event is evaluated as if every
-- enabled rule were tried.
use sentinel_linux.Prelude.{
  ◌≡◌, refl, some, List, [], ◌∷◌, length, ltb, String, arith, Bool-cases, Option-cases, inl, inr, ℕ,
}
use sentinel_linux.Prelude.Eq.{text_key}
use text.Mathlib.TextEquality.{eq_iff}
use sentinel_linux.Dict
use sentinel_linux.Dict.Laws.{get-set}
use sentinel_linux.Events.{Event}
use sentinel_linux.Detection.Value.{Value}
use sentinel_linux.Detection.Schema.{Rule}
use sentinel_linux.Detection.Engine.{
  Environment, Detection, DetectionEngine, init, with_actions, matching, candidates_for, try_rules,
  counted, run_candidates, evaluate_event,
}

-- The index lists the enabled rules, and what the cache holds is what it would compute.
pub record IsIndexed (eng : DetectionEngine) : Type 0 where
  pub listed : eng.rule_actions ≡ with_actions eng.rules
  pub cached :
      (action : String) (l : List Rule)
      → Dict.get action eng.candidates ≡ some l
      → l ≡ matching action eng.rule_actions

pub init-IsIndexed : (rules : List Rule) (max_groups : ℕ) → IsIndexed (init rules max_groups)
unfolding init Dict.get
init-IsIndexed rules max_groups = record { listed = refl; cached = λ action l h. cc }

-- One more entry in the cache.
cached_set :
    (action other : String) (eng : DetectionEngine)
    → IsIndexed eng
    → (l : List Rule)
    → Dict.get other (Dict.set action (matching action eng.rule_actions) eng.candidates) ≡ some l
    → l ≡ matching other eng.rule_actions
cached_set action other eng v l h = ground (
  arith,
  get-set action other (matching action eng.rule_actions) eng.candidates,
  eq_iff action other,
  v.cached other l,
)

pub candidates_for-matching :
    (action : String) (eng : DetectionEngine)
    → IsIndexed eng
    → ((candidates_for action eng).0 ≡ matching action eng.rule_actions)
      × IsIndexed (candidates_for action eng).1
unfolding candidates_for
candidates_for-matching action eng v = elim (Option-cases (Dict.get action eng.candidates)) [
  | inr (l, hit) ↦ (rw (hit, candidates_for) (v.cached action l hit), rw (hit, candidates_for) v)
  | inl miss ↦ elim (Bool-cases (ltb (length eng.candidates) 1024)) [
    | inr full ↦ (rw (miss, candidates_for) refl, rw (miss, candidates_for, full) v)
    | inl room ↦ (
      rw (miss, candidates_for) refl,
      rw (miss, candidates_for, room)
          (record { listed = v.listed; cached = λ other l h. cached_set action other eng v l h }),
    )
  ]
]

pub run_candidates-try :
    (env : Environment) (rules : List Rule) (event : Event) (eng : DetectionEngine)
    → run_candidates env rules event eng ≡ try_rules env rules event (env.model_dump event) eng
unfolding run_candidates
run_candidates-try env [] event eng = refl
run_candidates-try env (rule ∷ rules) event eng = refl

pub counted-IsIndexed : (eng : DetectionEngine) → IsIndexed eng → IsIndexed (counted eng)
counted-IsIndexed eng v = record { listed = v.listed; cached = v.cached }

pub evaluate_event-candidates :
    (env : Environment) (event : Event) (eng : DetectionEngine)
    → evaluate_event env event eng
      ≡ run_candidates env
          (candidates_for event.meta.action (counted eng)).0
          event
          (candidates_for event.meta.action (counted eng)).1
unfolding evaluate_event
evaluate_event-candidates env event eng = refl

-- What the first step of an evaluation changes: the count, and the cache of the index.
pub candidates_for-frame :
    (action : String) (eng : DetectionEngine)
    → (candidates_for action eng).1
      ≡ record eng { candidates = (candidates_for action eng).1.candidates }
unfolding candidates_for
candidates_for-frame action eng = ground arith
