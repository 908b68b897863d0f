-- ===== src/Alerting/Manager.antt =====
-- `AlertManager` of src/sentinel/alerting/manager.py: the severity floor, the dedup window, the
-- throttle of each rule, and the fan-out to the lanes. `process` reads the clock twice, in the dedup
-- window and in the throttle: the two values are its arguments, in microseconds.
pub mod Counters
pub mod Stamps
pub mod Budgets
use sentinel_linux.Prelude.{
  ℕ, ◌+◌, ◌*◌, Bool, true, false, Option, none, some, List, [], ◌∷◌, ltb, eqb, not, map,
  if◌then◌else◌, String,
}
use sentinel_linux.Prelude.Eq.{text_key}
use sentinel_linux.Prelude.Text.{text_append, decimal}
use sentinel_linux.Dict
use sentinel_linux.Dict.{Dict}
use sentinel_linux.SlidingWindow.Limiter.{admit}
use sentinel_linux.Pipeline.Dedup
use sentinel_linux.Pipeline.Dedup.{DedupWindow, seen}
use sentinel_linux.Detection.Schema.{Throttle}
use sentinel_linux.Detection.Engine.{Detection, second}
use sentinel_linux.Alerting.Model.{Alert, from_detection}
use sentinel_linux.Alerting.Lanes.{SinkLane, accepts, offer}

pub record AlertManager : Type 0 where
  pub min_severity : ℕ
  pub dedup : DedupWindow
  pub throttle_max : ℕ
  pub throttle_window : ℕ
  pub rule_throttles : Dict String Throttle
  pub rule_hits : Dict String (List ℕ)
  pub withheld : Dict String ℕ
  pub emitted : ℕ
  pub suppressed_severity : ℕ
  pub deduped : ℕ
  pub throttled : ℕ
  pub lanes : List SinkLane

-- The constructor; `none` is a ValueError of the dedup window.
unfoldable pub init : List SinkLane → ℕ → ℕ → ℕ → ℕ → ℕ → Dict String Throttle → Option AlertManager
unfolding Dedup.init
init lanes min_severity dedup_window dedup_max_entries throttle_max throttle_window rule_throttles =
    elim (Dedup.init dedup_window dedup_max_entries) [
      | none ↦ none
      | some dedup ↦ some (record {
        min_severity = min_severity;
        dedup = dedup;
        throttle_max = throttle_max;
        throttle_window = throttle_window;
        rule_throttles = rule_throttles;
        rule_hits = [];
        withheld = [];
        emitted = 0;
        suppressed_severity = 0;
        deduped = 0;
        throttled = 0;
        lanes = lanes;
      })
    ]

-- `d.get(k, default)`
abbrev pub get_or : {V : Type 0} → V → Option V → V
get_or default none = default
get_or default (some v) = v

abbrev pub budget_by : Option Throttle → AlertManager → ℕ × ℕ
budget_by none m = (m.throttle_max, m.throttle_window)
budget_by (some own) m = (own.max_alerts, own.window_seconds * second)

-- `_throttle_for`: the most alerts, and the window.
unfoldable pub throttle_for : String → AlertManager → ℕ × ℕ
throttle_for rule_id m = budget_by (Dict.get rule_id m.rule_throttles) m

-- `setdefault(rule_id, deque())`, the stamps as they are before the call.
unfoldable pub hits_of : String → AlertManager → List ℕ
hits_of rule_id m = get_or [] (Dict.get rule_id m.rule_hits)

unfoldable pub is_throttled : ℕ → String → AlertManager → AlertManager × Bool
unfolding throttle_for hits_of
is_throttled now rule_id m =
    let budget = throttle_for rule_id m in
    let answer = admit budget.1 budget.0 now (hits_of rule_id m) in
    (record m { rule_hits = Dict.set rule_id answer.0 m.rule_hits }, not answer.1)

-- `self._withheld.get(rule_id, 0)`
unfoldable pub withheld_of : String → AlertManager → ℕ
withheld_of rule_id m = get_or 0 (Dict.get rule_id m.withheld)

-- A throttled alert: counted, and returned to be stored.
unfoldable pub withhold : Alert → AlertManager → AlertManager × Option Alert
unfolding withheld_of
withhold alert m = (
  record m {
    throttled = m.throttled + 1;
    withheld = Dict.set alert.rule_id (withheld_of alert.rule_id m + 1) m.withheld;
  },
  some (record alert { notified = false }),
)

abbrev pub note : ℕ → String
note withheld =
    text_append " [+"
      (text_append (decimal withheld) " more alert(s) from this rule withheld by the throttle]")

abbrev pub with_note : ℕ → Alert → Alert
with_note withheld alert =
    if eqb withheld 0
    then alert
    else record alert { summary = text_append alert.summary (note withheld) }

-- The fan-out: `for lane in self._lanes: if lane.sink.accepts(alert): lane.offer(alert)`
abbrev pub route : Alert → SinkLane → SinkLane
route alert l = if accepts l alert then offer alert l else l

-- An alert within the budget of its rule: it tells how many were withheld, and goes to the sinks.
unfoldable pub notify : Alert → AlertManager → AlertManager × Option Alert
unfolding withheld_of
notify alert m =
    let sent = with_note (withheld_of alert.rule_id m) alert in
    (
      record m {
        withheld = Dict.remove alert.rule_id m.withheld;
        lanes = map (route sent) m.lanes;
        emitted = m.emitted + 1;
      },
      some sent,
    )

abbrev pub by_throttle : Alert → AlertManager × Bool → AlertManager × Option Alert
by_throttle alert (m, throttled) = if throttled then withhold alert m else notify alert m

abbrev pub by_dedup : ℕ → Alert → DedupWindow × Bool → AlertManager → AlertManager × Option Alert
by_dedup hit_at alert (dedup, duplicate) m =
    if duplicate
    then (record m { dedup = dedup; deduped = m.deduped + 1 }, none)
    else by_throttle alert (is_throttled hit_at alert.rule_id (record m { dedup = dedup }))

-- `process`: the manager after it, and the alert to store.
unfoldable pub process : ℕ → ℕ → Detection → AlertManager → AlertManager × Option Alert
unfolding from_detection is_throttled withhold notify
process seen_at hit_at detection m =
    let alert = from_detection detection in
    if ltb alert.severity m.min_severity
    then (record m { suppressed_severity = m.suppressed_severity + 1 }, none)
    else by_dedup hit_at alert (seen seen_at alert.dedup_key m.dedup) m
