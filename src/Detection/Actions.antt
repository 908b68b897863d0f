-- ===== src/Detection/Actions.antt =====
-- `required_actions` of src/sentinel/detection/engine.py: the actions that a condition can match.
-- A frozenset is the list of its elements; sets are compared by membership only.
pub mod Soundness
use sentinel_linux.Prelude.{
  Bool, true, false, Option, none, some, List, [], ◌∷◌, ◌++◌, all, any, keep, map, if◌then◌else◌,
  String, ◌||◌, not, ◌&&◌,
}
use text.Mathlib.Text.{◌==◌ as str_eq}
use sentinel_linux.Detection.Value.{Scalar, str, RuleValue}
use sentinel_linux.Detection.Schema.{
  Operator, equals, is_in, Condition, Conditions, Threshold, match_field, all_of, any_of, not_of,
  threshold, nil, cons, make,
}

abbrev pub action_field : String
action_field = "event.action"

-- `action in actions`
unfoldable pub member : String → List String → Bool
member a [] = false
member a (x ∷ xs) = str_eq x a || member a xs

-- `frozenset.intersection(first, *others)` and `frozenset().union(*sets)`
unfoldable pub intersection : List String → List (List String) → List String
unfolding member
intersection first others = keep (λ x. all (member x) others) first

unfoldable pub union : List (List String) → List String
union [] = []
union (s ∷ sets) = s ++ union sets

-- The texts of a rule's list, if it holds nothing else.
unfoldable pub all_texts : List Scalar → Option (List String)
all_texts [] = some []
all_texts (str s ∷ values) = elim (all_texts values) [ none ↦ none | some l ↦ some (s ∷ l) ]
all_texts (_ ∷ values) = none

abbrev actions_of : Operator → RuleValue → Option (List String)
actions_of equals (RuleValue.scalar (str s)) = some (s ∷ [])
actions_of is_in (RuleValue.list values) = all_texts values
actions_of _ _ = none

unfoldable pub field_actions : String → Operator → RuleValue → Option (List String)
unfolding all_texts
field_actions path op value = if str_eq path action_field then actions_of op value else none

-- `frozenset.intersection(*restricting) if restricting else None`
unfoldable pub intersect_restricting : List (List String) → Option (List String)
unfolding intersection
intersect_restricting [] = none
intersect_restricting (s ∷ sets) = some (intersection s sets)

abbrev add_restricting : Option (List String) → List (List String) → List (List String)
add_restricting none sets = sets
add_restricting (some s) sets = s ∷ sets

-- `frozenset().union(*branches) if branches else None`
unfoldable pub unite : List (List String) → Option (List String)
unfolding union
unite [] = none
unite (s ∷ sets) = some (union (s ∷ sets))

abbrev add_branch : List String → Option (List (List String)) → Option (List (List String))
add_branch s none = none
add_branch s (some sets) = some (s ∷ sets)

unfoldable mutual
  unfolding field_actions intersect_restricting unite

  pub required_actions : Condition → Option (List String)
  required_actions (match_field path op value) = field_actions path op value
  required_actions (all_of cs) = intersect_restricting (restricting cs)
  required_actions (any_of cs) = elim (branches cs) [ none ↦ none | some sets ↦ unite sets ]
  required_actions (threshold t) = required_match t
  required_actions (not_of c) = none

  pub required_match : Threshold → Option (List String)
  required_match (make c window count group_by) = required_actions c

  -- `[r for r in map(required_actions, all_) if r is not None]`
  pub restricting : Conditions → List (List String)
  restricting nil = []
  restricting (cons c cs) = add_restricting (required_actions c) (restricting cs)

  -- The loop over `any_`: none as soon as one branch is unrestricted.
  pub branches : Conditions → Option (List (List String))
  branches nil = some []
  branches (cons c cs) = elim (required_actions c) [
    | none ↦ none
    | some actions ↦ add_branch actions (branches cs)
  ]

-- `actions is None or action in actions`
unfoldable pub allows : Option (List String) → String → Bool
unfolding member
allows none action = true
allows (some actions) action = member action actions
