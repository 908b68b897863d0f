-- ===== src/Detection/Engine.antt =====
-- src/sentinel/detection/engine.py: the stateful engine with its action index and its thresholds.
-- Parameters: the regex engine; the plain-dict view of an event (pydantic's `model_dump`); Python's
-- `str` of a group value that is no text; and `ipaddress`, as the address that a text stands for
-- and the texts of an IPv4 address and of an IPv6 network.
pub mod Candidates
pub mod Index
pub mod Thresholds
pub mod Bursts
pub mod Bounds
pub mod Memory
pub mod Runs
use sentinel_linux.Prelude.{
  ℕ, ◌+◌, ◌*◌, ◌/◌, ◌%◌, ◌^◌, Bool, true, false, Option, none, some, List, [], ◌∷◌, ◌++◌, keep,
  length, leb, ltb, eqb, if◌then◌else◌, String,
}
use sentinel_linux.Prelude.Eq.{text_key, pair_key}
use sentinel_linux.Prelude.Text.{text_append, text_join, empty}
use sentinel_linux.Dict
use sentinel_linux.Dict.{Dict, remove_oldest}
use sentinel_linux.SlidingWindow.{trim}
use sentinel_linux.Events.{Event}
use sentinel_linux.Detection.Value.{Value, str}
use sentinel_linux.Detection.Schema.{Condition, Threshold, Rule, threshold, make}
use sentinel_linux.Detection.Evaluator.{Search, Answer, answer, incomplete, evaluate, resolve_field}
use sentinel_linux.Detection.Actions.{required_actions, allows}

-- An address that `ipaddress` read: 32 or 128 bits.
pub data Address : Type 0 where
  v4 v6 : ℕ → Address

-- What the engine uses of code that it does not contain.
pub record Environment : Type 0 where
  pub search : String → String → Search
  pub model_dump : Event → Value
  pub py_str : Value → String
  pub ip_address : String → Option Address
  pub v4_text : ℕ → String
  pub v6_network_text : ℕ → String

abbrev pub max_cached_actions : ℕ
max_cached_actions = 1024

-- Timestamps are in microseconds.
abbrev pub second : ℕ
second = 1000000

pub record Detection : Type 0 where
  pub rule_id : String
  pub title : String
  pub severity : ℕ
  pub attack : List String
  pub nist_csf : List String
  pub d3fend : List String
  pub event_id : String
  pub host : String
  pub timestamp : ℕ
  pub message : String

pub record DetectionEngine : Type 0 where
  pub rules : List Rule
  pub rule_actions : List (Rule × Option (List String))
  pub candidates : Dict String (List Rule)
  pub max_groups : ℕ
  pub windows : Dict (String × String) (List ℕ)
  pub evaluations : ℕ
  pub fired : ℕ
  pub incomplete_count : ℕ

abbrev pub with_actions : List Rule → List (Rule × Option (List String))
with_actions [] = []
with_actions (rule ∷ rules) = (rule, required_actions rule.condition) ∷ with_actions rules

unfoldable pub init : List Rule → ℕ → DetectionEngine
init rules max_threshold_groups =
    let enabled = keep (λ rule. rule.enabled) rules in
    record {
      rules = enabled;
      rule_actions = with_actions enabled;
      candidates = [];
      max_groups = max_threshold_groups;
      windows = [];
      evaluations = 0;
      fired = 0;
      incomplete_count = 0;
    }

-- The comprehension of `_candidates_for`.
unfoldable pub matching : String → List (Rule × Option (List String)) → List Rule
matching action [] = []
matching action ((rule, actions) ∷ rest) =
    let others = matching action rest in if allows actions action then rule ∷ others else others

unfoldable pub candidates_for : String → DetectionEngine → List Rule × DetectionEngine
unfolding matching
candidates_for action eng = elim (Dict.get action eng.candidates) [
  | some cached ↦ (cached, eng)
  | none ↦
      let found = matching action eng.rule_actions in
      (
        found,
        if ltb (length eng.candidates) max_cached_actions
            then record eng { candidates = Dict.set action found eng.candidates }
            else eng,
      )
]

-- `ipv4_mapped`: ::ffff:a.b.c.d; and the /64 network, by its upper half.
abbrev mapped : ℕ → Bool
mapped n = eqb (n / 2 ^ 32) 0xffff

abbrev bucket : Environment → String → Option Address → String
bucket env text none = text
bucket env text (some (v4 n)) = text
bucket env text (some (v6 n)) =
    if mapped n then env.v4_text (n % 2 ^ 32) else env.v6_network_text (n / 2 ^ 64 * 2 ^ 64)

-- `str(value)`
abbrev text_of : Environment → Value → String
text_of env (Value.scalar (str s)) = s
text_of env v = env.py_str v

unfoldable pub group_key : Environment → Value → String
group_key env value = let text = text_of env value in bucket env text (env.ip_address text)

-- `_window_for`: the window of a key, and the dict that holds it; a new one may cost the oldest.
unfoldable pub window_for : (String × String) → DetectionEngine → List ℕ × DetectionEngine
window_for key eng = elim (Dict.get key eng.windows) [
  | some existing ↦ (existing, eng)
  | none ↦
      let room =
        if leb eng.max_groups (length eng.windows)
        then remove_oldest eng.windows
        else eng.windows in
      ([], record eng { windows = Dict.set key [] room })
]

-- The rest of `_threshold_fires` once the window is at hand: it is the object in the dict.
unfoldable pub slide :
    (String × String) → ℕ → ℕ → ℕ → List ℕ × DetectionEngine → DetectionEngine × Bool
unfolding trim
slide key moment span count (window, eng) =
    let live = trim moment span (window ++ moment ∷ []) in
    if leb count (length live)
    then (record eng { windows = Dict.set key [] eng.windows }, true)
    else (record eng { windows = Dict.set key live eng.windows }, false)

module _ (env : Environment) where
  abbrev pub count_match :
      String → ℕ → ℕ → Event → Option Value → DetectionEngine → DetectionEngine × Bool
  count_match rule_id span count event none eng = (eng, false)
  count_match rule_id span count event (some group) eng =
      let key : String × String = (rule_id, group_key env group) in
      slide key event.timestamp span count (window_for key eng)

  -- `_threshold_fires`; `none` is EvaluationIncomplete, raised before the state changes.
  unfoldable pub threshold_fires :
      String → Threshold → Event → Value → DetectionEngine → Option (DetectionEngine × Bool)
  unfolding window_for slide group_key
  threshold_fires rule_id (make condition window_seconds count group_by) event view eng =
      elim (evaluate env.search condition view) [
        | incomplete ↦ none
        | answer b ↦ elim b [
          | false ↦ some (eng, false)
          | true ↦ some (
              count_match rule_id (window_seconds * second) count event
                (resolve_field group_by view) eng)
        ]
      ]

  abbrev plain_fires : Answer → DetectionEngine → Option (DetectionEngine × Bool)
  plain_fires (answer b) eng = some (eng, b)
  plain_fires incomplete eng = none

  abbrev pub condition_fires :
      String → Condition → Event → Value → DetectionEngine → Option (DetectionEngine × Bool)
  condition_fires rule_id (threshold t) event view eng = threshold_fires rule_id t event view eng
  condition_fires rule_id condition event view eng =
      plain_fires (evaluate env.search condition view) eng

  -- `_fires`
  unfoldable pub fires : Rule → Event → Value → DetectionEngine → Option (DetectionEngine × Bool)
  unfolding threshold_fires
  fires rule event view eng = condition_fires rule.id rule.condition event view eng

-- `self._evaluations += 1`
abbrev pub counted : DetectionEngine → DetectionEngine
counted eng = record eng { evaluations = eng.evaluations + 1 }

-- `_build`
unfoldable pub build : Rule → Event → Bool → Detection
build rule event complete = record {
  rule_id = rule.id;
  title = rule.title;
  severity = rule.severity;
  attack = rule.attack;
  nist_csf = rule.nist_csf;
  d3fend = rule.d3fend;
  event_id = event.meta.id;
  host = event.host.name;
  timestamp = event.timestamp;
  message = text_join empty (
      rule.title
      ∷ " ["
      ∷ text_join "," rule.attack
      ∷ "] — "
      ∷ event.meta.action
      ∷ " on "
      ∷ event.host.name
      ∷ (if complete then empty else " (evaluation incomplete: a pattern timed out; review)")
      ∷ []);
}

module _ (env : Environment) where
  -- What the loop of `evaluate` does with one rule's outcome.
  abbrev pub tally :
      Rule
      → Event
      → DetectionEngine
      → Option (DetectionEngine × Bool)
      → List Detection × DetectionEngine
  tally rule event eng (some (eng', fired)) =
      if fired
      then (build rule event true ∷ [], record eng' { fired = eng'.fired + 1 })
      else ([], eng')
  tally rule event eng none = (
    build rule event false ∷ [],
    record eng { fired = eng.fired + 1; incomplete_count = eng.incomplete_count + 1 },
  )

  unfoldable pub try_rules :
      List Rule → Event → Value → DetectionEngine → List Detection × DetectionEngine
  unfolding fires build
  try_rules [] event view eng = ([], eng)
  try_rules (rule ∷ rules) event view eng =
      let (first, eng') = tally rule event eng (fires env rule event view eng) in
      let (others, last) = try_rules rules event view eng' in (first ++ others, last)

  -- No candidate: the view is not even built.
  unfoldable pub run_candidates :
      List Rule → Event → DetectionEngine → List Detection × DetectionEngine
  unfolding try_rules
  run_candidates [] event eng = ([], eng)
  run_candidates (rule ∷ rules) event eng =
      try_rules (rule ∷ rules) event (env.model_dump event) eng

  -- `evaluate`
  unfoldable pub evaluate_event : Event → DetectionEngine → List Detection × DetectionEngine
  unfolding candidates_for run_candidates
  evaluate_event event eng =
      let (candidates, cached) = candidates_for event.meta.action (counted eng) in
      run_candidates candidates event cached
