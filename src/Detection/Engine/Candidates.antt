-- ===== src/Detection/Engine/Candidates.antt =====
-- The action index and its cache against a run of every enabled rule.
use sentinel_linux.Prelude.{◌≢◌, Option, some, List, [], ◌∷◌, String, arith}
use sentinel_linux.Prelude.Eq.{text_key}
use sentinel_linux.Detection.Value.{Value, str, RuleValue}
use sentinel_linux.Detection.Schema.{
  Operator, regex, Condition, Conditions, Threshold, match_field, all_of, any_of, not_of, threshold,
  nil, cons, make,
}
use sentinel_linux.Detection.Evaluator.{
  Search, timed_out, incomplete, evaluate, evaluate_match, evaluate_all, evaluate_any,
  resolve_field, scan, scan_windows, regex_search, operator,
}

-- A search that never times out leaves no condition undecided.
module _ (engine : String → String → Search)
    (in_time : (pattern window : String) → engine pattern window ≢ timed_out) where
  scan_decided :
      (pattern : String) (windows : List String) → scan engine pattern windows ≢ incomplete
  unfolding scan
  scan_decided pattern [] h = cc
  scan_decided pattern (window ∷ windows) h =
      ground (arith, in_time pattern window, scan_decided pattern windows)

  regex_decided : (a : Option Value) (e : RuleValue) → regex_search engine a e ≢ incomplete
  unfolding regex_search
  regex_decided (some (Value.scalar (str a))) (RuleValue.scalar (str e)) h =
      scan_decided e (scan_windows a) h
  regex_decided _ _ h = cc

  operator_decided :
      (op : Operator) (a : Option Value) (e : RuleValue) → operator engine op a e ≢ incomplete
  unfolding operator
  operator_decided regex a e h = regex_decided a e h
  operator_decided _ a e h = cc

  mutual
    unfolding evaluate

    decided : (c : Condition) (event : Value) → evaluate engine c event ≢ incomplete
    decided (match_field path op value) event h =
        operator_decided op (resolve_field path event) value h
    decided (all_of cs) event h = all_decided cs event h
    decided (any_of cs) event h = any_decided cs event h
    decided (not_of c) event h = ground (arith, decided c event)
    decided (threshold t) event h = match_decided t event h

    match_decided : (t : Threshold) (event : Value) → evaluate_match engine t event ≢ incomplete
    match_decided (make c window count group_by) event h = decided c event h

    all_decided : (cs : Conditions) (event : Value) → evaluate_all engine cs event ≢ incomplete
    all_decided nil event h = cc
    all_decided (cons c cs) event h = ground (arith, decided c event, all_decided cs event)

    any_decided : (cs : Conditions) (event : Value) → evaluate_any engine cs event ≢ incomplete
    any_decided nil event h = cc
    any_decided (cons c cs) event h = ground (arith, decided c event, any_decided cs event)

  pub never_incomplete : (c : Condition) (event : Value) → evaluate engine c event ≢ incomplete
  never_incomplete c event = decided c event
