-- ===== src/Detection/Engine/Memory.antt =====
-- Whatever events arrive, the engine stays within its memory bounds.
use sentinel_linux.Prelude.{
  ℕ, ◌≤◌, ◌≡◌, refl, ap, Bool, true, false, Option, none, some, List, [], ◌∷◌, String, Bool-cases,
  inl, inr, All,
}
use sentinel_linux.Events.{Event}
use sentinel_linux.Detection.Value.{Value}
use sentinel_linux.Detection.Schema.{Rule}
use sentinel_linux.Detection.Actions.{allows, required_actions}
use sentinel_linux.Detection.Engine.{
  Environment, DetectionEngine, fires, tally, try_rules, evaluate_event, matching, with_actions,
  candidates_for, counted,
}
use sentinel_linux.Detection.Engine.Index.{
  IsIndexed, candidates_for-matching, counted-IsIndexed, candidates_for-frame,
  evaluate_event-candidates, run_candidates-try,
}
use sentinel_linux.Detection.Engine.Bounds.{IsBounded, CountsTo, condition-IsBounded}

abbrev pub RulesCountTo : ℕ → List Rule → Type 0
RulesCountTo most = All (λ rule. CountsTo most rule.condition)

RulesCountTo-matching :
    (most : ℕ) (action : String) (rules : List Rule)
    → RulesCountTo most rules
    → RulesCountTo most (matching action (with_actions rules))
unfolding matching
RulesCountTo-matching most action [] h = tt
RulesCountTo-matching most action (rule ∷ rules) h =
    elim (Bool-cases (allows (required_actions rule.condition) action)) [
      | inl kept ↦ rw kept (h.0, RulesCountTo-matching most action rules h.1)
      | inr left ↦ rw left (RulesCountTo-matching most action rules h.1)
    ]

-- The counters of an engine do not matter to its bounds.
recount :
    (most : ℕ) (e f : DetectionEngine)
    → f.windows ≡ e.windows
    → f.max_groups ≡ e.max_groups
    → IsBounded most e
    → IsBounded most f
recount most e f w m b = record {
  positive = rw m b.positive;
  groups = rw (w, m) b.groups;
  short = rw w b.short;
}

module _ (env : Environment) (most : ℕ) (event : Event) (view : Value) (pos : 1 ≤ most) where
  tally-IsBounded :
      (rule : Rule) (eng : DetectionEngine) (r : Option (DetectionEngine × Bool))
      → CountsTo most rule.condition
      → IsBounded most eng
      → fires env rule event view eng ≡ r
      → IsBounded most (tally env rule event eng r).1
  tally-IsBounded rule eng none le b h =
      recount most eng (tally env rule event eng none).1 refl refl b
  tally-IsBounded rule eng (some (e, true)) le b h =
      recount most e (tally env rule event eng (some (e, true))).1 refl refl (
        condition-IsBounded env most event view pos rule.id rule.condition eng e true le b
          (unfold fires in h))
  tally-IsBounded rule eng (some (e, false)) le b h =
      condition-IsBounded env most event view pos rule.id rule.condition eng e false le b
        (unfold fires in h)

  try_rules-IsBounded :
      (rules : List Rule) (eng : DetectionEngine)
      → RulesCountTo most rules
      → IsBounded most eng
      → IsBounded most (try_rules env rules event view eng).1
  unfolding try_rules
  try_rules-IsBounded [] eng le b = b
  try_rules-IsBounded (rule ∷ rules) eng le b =
      try_rules-IsBounded rules (tally env rule event eng (fires env rule event view eng)).1 le.1
        (tally-IsBounded rule eng (fires env rule event view eng) le.0 b refl)

-- One event keeps the bounds: no more groups than `max_threshold_groups`, and every window shorter
-- than the largest count of an enabled rule.
pub evaluate_event-IsBounded :
    (env : Environment) (most : ℕ) (event : Event) (eng : DetectionEngine)
    → 1 ≤ most
    → RulesCountTo most eng.rules
    → IsIndexed eng
    → IsBounded most eng
    → IsBounded most (evaluate_event env event eng).1
evaluate_event-IsBounded env most event eng pos le v b =
    let action = event.meta.action in
    let c = candidates_for action (counted eng) in
    let m = (candidates_for-matching action (counted eng) (counted-IsIndexed eng v)).0 in
    let frame = candidates_for-frame action (counted eng) in
    rw (evaluate_event-candidates, run_candidates-try, m)
      (try_rules-IsBounded env most event (env.model_dump event) pos
        (matching action eng.rule_actions) c.1
        (rw v.listed (RulesCountTo-matching most action eng.rules le))
        (recount most eng c.1 (ap (λ (e : DetectionEngine). e.windows) frame)
          (ap (λ (e : DetectionEngine). e.max_groups) frame) b))
