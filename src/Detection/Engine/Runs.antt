-- ===== src/Detection/Engine/Runs.antt =====
-- A stream of events through one engine (`DetectionEngine` of src/sentinel/detection/engine.py): its
-- action index and its memory.
use sentinel_linux.Prelude.{◌≡◌, List, [], ◌∷◌}
use sentinel_linux.Events.{Event}
use sentinel_linux.Detection.Value.{Value}
use sentinel_linux.Detection.Engine.{Environment, DetectionEngine, evaluate_event}

-- What evaluating rules leaves alone.
record SameIndex (e f : DetectionEngine) : Type 0 where
  rules : f.rules ≡ e.rules
  rule_actions : f.rule_actions ≡ e.rule_actions
  candidates : f.candidates ≡ e.candidates

-- The engine after a stream of events.
unfoldable pub run : Environment → List Event → DetectionEngine → DetectionEngine
run env [] eng = eng
run env (event ∷ events) eng = run env events (evaluate_event env event eng).1
