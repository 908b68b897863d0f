-- ===== src/Runtime/Consume.antt =====
-- `_consume` of src/sentinel/runtime.py whole: the engine, the alert manager and the buffer on one
-- event. The clock of the alert manager is read twice for each detection; `clock i` are its values for
-- the i-th.
use sentinel_linux.Prelude.{ℕ, ◌+◌, Option, none, some, List, [], ◌∷◌}
use sentinel_linux.Events.{Event}
use sentinel_linux.Detection.Engine.{Environment, DetectionEngine, Detection, evaluate_event}
use sentinel_linux.Alerting.Model.{Alert}
use sentinel_linux.Alerting.Manager.{AlertManager}
use sentinel_linux.Alerting.Manager.Counters.{Call, run}
use sentinel_linux.Runtime.Buffer.{Buffer, buffer_event}

pub record Runtime : Type 0 where
  pub engine : DetectionEngine
  pub alerts : AlertManager
  pub buffer : Buffer Event Alert

abbrev pub calls : (ℕ → ℕ × ℕ) → ℕ → List Detection → List Call
calls clock i [] = []
calls clock i (detection ∷ detections) =
    record { seen_at = (clock i).0; hit_at = (clock i).1; detection = detection }
    ∷ calls clock (i + 1) detections

-- `if alert is not None`
abbrev pub kept_alerts : List (Option Alert) → List Alert
kept_alerts [] = []
kept_alerts (none ∷ os) = kept_alerts os
kept_alerts (some alert ∷ os) = alert ∷ kept_alerts os

unfoldable pub consume : Environment → (ℕ → ℕ × ℕ) → Event → Runtime → Runtime
consume env clock event r =
    let found = evaluate_event env event r.engine in
    let processed = run (calls clock 0 found.0) r.alerts in
    record {
      engine = found.1;
      alerts = processed.0;
      buffer = buffer_event event (kept_alerts processed.1) r.buffer;
    }
