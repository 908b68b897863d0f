-- ===== src/Detection/Evaluator.antt =====
-- src/sentinel/detection/evaluator.py: the allowlisted interpreter of the match grammar.
-- The engine `regex` is a parameter: what one compiled search of one window comes to.
use sentinel_linux.Prelude.{
  ℕ, ◌/◌, Bool, true, false, not, Option, none, some, List, [], ◌∷◌, leb, if◌then◌else◌, String,
}
use sentinel_linux.Prelude.Text.{
  text_length, text_take, text_last, text_starts, text_ends, text_contains, text_split,
}
use sentinel_linux.Prelude.Int.{ℤ, ltb_scaled}
use Prim.Native.Nat.{◌^◌}
use sentinel_linux.Detection.Value.{
  Scalar, str, bool, RuleValue, Value, dict, get_field, value_eq, value_in, values_contain, number,
}
use sentinel_linux.Detection.Schema.{
  Operator, equals, not_equals, contains, not_contains, startswith, endswith, regex, gt, gte, lt,
  lte, is_in, not_in, Condition, Conditions, Threshold, match_field, all_of, any_of, not_of,
  threshold, nil, cons, make,
}

-- A search of one window: a match or none, TimeoutError, or regex.error.
pub data Search : Type 0 where
  found not_found timed_out bad_pattern : Search

-- The value of a condition, or EvaluationIncomplete.
pub data Answer : Type 0 where
  answer : Bool → Answer
  incomplete : Answer

abbrev pub max_regex_input : ℕ
max_regex_input = 16384

-- The walk of `resolve_field` over the parts of the path.
unfoldable pub walk : List String → Value → Option Value
walk [] current = some current
walk (part ∷ parts) (dict fields) = elim (get_field part fields) [
  | none ↦ none
  | some v ↦ walk parts v
]
walk (part ∷ parts) _ = none

unfoldable pub resolve_field : String → Value → Option Value
unfolding walk
resolve_field path event = walk (text_split b'.' path) event

unfoldable pub value_contains : Option Value → RuleValue → Bool
value_contains (some (Value.scalar (str a))) (RuleValue.scalar (str e)) = text_contains a e
value_contains (some (Value.list vs)) e = values_contain vs e
value_contains _ _ = false

-- `_numeric_compare`, for an order on numerators over powers of two. Booleans are no numbers here.
abbrev plain_number : Scalar → Option (ℤ × ℕ)
plain_number (bool b) = none
plain_number s = number s

abbrev compare_with : ((ℤ × ℕ) → (ℤ × ℕ) → Bool) → Option (ℤ × ℕ) → Option (ℤ × ℕ) → Bool
compare_with op (some x) (some y) = op x y
compare_with op _ _ = false

unfoldable pub numeric_compare : Option Value → RuleValue → ((ℤ × ℕ) → (ℤ × ℕ) → Bool) → Bool
numeric_compare (some (Value.scalar a)) (RuleValue.scalar e) op =
    compare_with op (plain_number a) (plain_number e)
numeric_compare _ _ op = false

-- x < y for x = a / 2^j and y = b / 2^k
abbrev pub less : (ℤ × ℕ) → (ℤ × ℕ) → Bool
less (a, j) (b, k) = ltb_scaled a (2 ^ k) b (2 ^ j)

-- `_scan_windows`
unfoldable pub scan_windows : String → List String
scan_windows value =
    if leb (text_length value) max_regex_input
    then value ∷ []
    else text_take (max_regex_input / 2) value ∷ text_last (max_regex_input / 2) value ∷ []

-- `a.startswith(e)` and `a.endswith(e)`, guarded by the types.
abbrev both_text : (String → String → Bool) → Option Value → RuleValue → Bool
both_text test (some (Value.scalar (str a))) (RuleValue.scalar (str e)) = test a e
both_text test _ _ = false

abbrev pub in_list : Option Value → RuleValue → Bool
in_list a (RuleValue.list es) = value_in a es
in_list a (RuleValue.scalar e) = false

module _ (search : String → String → Search) where
  -- The `any` over the windows: it stops at a match, at a timeout and at a pattern error.
  unfoldable pub scan : String → List String → Answer
  scan pattern [] = answer false
  scan pattern (window ∷ windows) = elim (search pattern window) [
    | found ↦ answer true
    | not_found ↦ scan pattern windows
    | timed_out ↦ incomplete
    | bad_pattern ↦ answer false
  ]

  unfoldable pub regex_search : Option Value → RuleValue → Answer
  unfolding scan scan_windows
  regex_search (some (Value.scalar (str a))) (RuleValue.scalar (str e)) = scan e (scan_windows a)
  regex_search _ _ = answer false

  -- The table `_OPERATORS`.
  unfoldable pub operator : Operator → Option Value → RuleValue → Answer
  unfolding value_contains numeric_compare regex_search
  operator equals a e = answer (value_eq a e)
  operator not_equals a e = answer (not (value_eq a e))
  operator contains a e = answer (value_contains a e)
  operator not_contains a e = answer (not (value_contains a e))
  operator startswith a e = answer (both_text text_starts a e)
  operator endswith a e = answer (both_text text_ends a e)
  operator regex a e = regex_search a e
  operator gt a e = answer (numeric_compare a e (λ x y. less y x))
  operator gte a e = answer (numeric_compare a e (λ x y. not (less x y)))
  operator lt a e = answer (numeric_compare a e less)
  operator lte a e = answer (numeric_compare a e (λ x y. not (less y x)))
  operator is_in a e = answer (in_list a e)
  operator not_in a e = answer (not (in_list a e))

  abbrev pub negated : Answer → Answer
  negated (answer b) = answer (not b)
  negated incomplete = incomplete

  unfoldable mutual
    -- `evaluate_condition`
    pub evaluate : Condition → Value → Answer
    evaluate (all_of cs) event = evaluate_all cs event
    evaluate (any_of cs) event = evaluate_any cs event
    evaluate (not_of c) event = negated (evaluate c event)
    evaluate (threshold t) event = evaluate_match t event
    evaluate (match_field path op value) event = operator op (resolve_field path event) value

    pub evaluate_match : Threshold → Value → Answer
    evaluate_match (make c window count group_by) event = evaluate c event

    -- `all` and `any` stop at the child that decides them.
    pub evaluate_all : Conditions → Value → Answer
    evaluate_all nil event = answer true
    evaluate_all (cons c cs) event = elim (evaluate c event) [
      | answer b ↦ elim b [ true ↦ evaluate_all cs event | false ↦ answer false ]
      | incomplete ↦ incomplete
    ]

    pub evaluate_any : Conditions → Value → Answer
    evaluate_any nil event = answer false
    evaluate_any (cons c cs) event = elim (evaluate c event) [
      | answer b ↦ elim b [ true ↦ answer true | false ↦ evaluate_any cs event ]
      | incomplete ↦ incomplete
    ]
