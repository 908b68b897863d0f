-- ===== src/Detection/Schema.antt =====
-- src/sentinel/detection/schema.py: the rule grammar. A condition is the sum of the five forms
-- that the validator `_exactly_one_form` admits.
use sentinel_linux.Prelude.{ℕ, Bool, Option, List, String}
use sentinel_linux.Detection.Value.{RuleValue}

pub data Operator : Type 0 where
  equals not_equals contains not_contains startswith endswith regex gt gte lt lte is_in not_in :
      Operator

mutual
  pub data Condition : Type 0 where
    match_field : String → Operator → RuleValue → Condition
    all_of : Conditions → Condition
    any_of : Conditions → Condition
    not_of : Condition → Condition
    threshold : Threshold → Condition

  pub data Conditions : Type 0 where
    nil : Conditions
    cons : Condition → Conditions → Conditions

  -- match, window_seconds, count, group_by
  pub data Threshold : Type 0 where
    make : Condition → ℕ → ℕ → String → Threshold

pub record Throttle : Type 0 where
  pub window_seconds : ℕ
  pub max_alerts : ℕ

pub record Rule : Type 0 where
  pub id : String
  pub title : String
  pub severity : ℕ
  pub attack : List String
  pub nist_csf : List String
  pub d3fend : List String
  pub condition : Condition
  pub throttle : Option Throttle
  pub enabled : Bool
