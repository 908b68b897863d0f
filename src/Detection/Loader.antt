-- ===== src/Detection/Loader.antt =====
-- src/sentinel/detection/loader.py: a rule library loads in full or not at all. What YAML and pydantic
-- make of a file, and whether the regex engine compiles a pattern, are parameters.
pub mod Regexes
pub mod Library
use sentinel_linux.Prelude.{
  ℕ, Bool, true, false, Option, none, some, List, [], ◌∷◌, ◌++◌, if◌then◌else◌, String,
}
use sentinel_linux.Prelude.Eq.{text_key}
use sentinel_linux.Dict.{Dict, has, set}
use sentinel_linux.Detection.Value.{RuleValue, str}
use sentinel_linux.Detection.Schema.{
  Operator, Condition, Conditions, Threshold, Rule, match_field, all_of, any_of, not_of, threshold,
  nil, cons, make, regex,
}

-- What a path of the directory holds.
pub data RuleFile : Type 0 where
  unreadable no_mapping invalid_rule : RuleFile
  mapping : Rule → RuleFile

-- `RuleLoadError`, by its message.
pub data LoadError : Type 0 where
  no_directory cannot_read not_a_mapping not_a_rule : LoadError
  invalid_regex : String → LoadError
  duplicate_id : String → String → LoadError

pub data Loaded (A : Type 0) : Type 0 where
  loaded : A → Loaded A
  failed : LoadError → Loaded A

-- `_iter_conditions`, depth first.
unfoldable mutual
  pub iter_conditions : Condition → List Condition
  iter_conditions (match_field path op value) = match_field path op value ∷ []
  iter_conditions (all_of cs) = all_of cs ∷ iter_children cs
  iter_conditions (any_of cs) = any_of cs ∷ iter_children cs
  iter_conditions (not_of c) = not_of c ∷ iter_conditions c
  iter_conditions (threshold t) = threshold t ∷ iter_match t

  pub iter_match : Threshold → List Condition
  iter_match (make c window count group_by) = iter_conditions c

  pub iter_children : Conditions → List Condition
  iter_children nil = []
  iter_children (cons c cs) = iter_conditions c ++ iter_children cs

-- The pattern of a node whose operator is the regex and whose value is a text.
abbrev pub regex_pattern : Operator → RuleValue → Option String
regex_pattern regex (RuleValue.scalar (str pattern)) = some pattern
regex_pattern op value = none

abbrev pub pattern_of : Condition → Option String
pattern_of (match_field path op value) = regex_pattern op value
pattern_of c = none

module _ (compiles : String → Bool) where
  abbrev pub bad_pattern : Option String → Option String
  bad_pattern none = none
  bad_pattern (some pattern) = if compiles pattern then none else some pattern

  abbrev pub or_later : Option String → Option String → Option String
  or_later none later = later
  or_later (some pattern) later = some pattern

  -- `_validate_regexes`: the first pattern that does not compile.
  unfoldable pub first_invalid : List Condition → Option String
  first_invalid [] = none
  first_invalid (c ∷ cs) = or_later (bad_pattern (pattern_of c)) (first_invalid cs)

  abbrev pub by_regexes : Rule → Option String → Loaded Rule
  by_regexes rule none = loaded rule
  by_regexes rule (some pattern) = failed (invalid_regex pattern)

  -- `_load_one`
  unfoldable pub load_one : RuleFile → Loaded Rule
  unfolding first_invalid iter_conditions
  load_one unreadable = failed cannot_read
  load_one no_mapping = failed not_a_mapping
  load_one invalid_rule = failed not_a_rule
  load_one (mapping rule) = by_regexes rule (first_invalid (iter_conditions rule.condition))

  abbrev pub append_rule : Rule → Loaded (List Rule) → Loaded (List Rule)
  append_rule rule (failed e) = failed e
  append_rule rule (loaded rules) = loaded (rule ∷ rules)

  unfoldable pub add_rule :
      String
      → Dict String String
      → Loaded Rule
      → (Dict String String → Loaded (List Rule))
      → Loaded (List Rule)
  unfolding has set
  add_rule path seen (failed e) rest = failed e
  add_rule path seen (loaded rule) rest =
      if has rule.id seen
      then failed (duplicate_id rule.id path)
      else append_rule rule (rest (set rule.id path seen))

  -- The loop over the sorted paths.
  unfoldable pub load_from : List (String × RuleFile) → Dict String String → Loaded (List Rule)
  unfolding load_one add_rule
  load_from [] seen = loaded []
  load_from ((path, file) ∷ files) seen =
      add_rule path seen (load_one file) (λ next. load_from files next)

  -- `load_rules`, of what stands in the directory, if there is one.
  unfoldable pub load_rules : Option (List (String × RuleFile)) → Loaded (List Rule)
  unfolding load_from
  load_rules none = failed no_directory
  load_rules (some files) = load_from files []
