-- ===== src/Detection/Checks.antt =====
-- The load-time checks of a rule's condition in src/sentinel/detection/schema.py: real fields,
-- comparisons that they can satisfy, thresholds only at the root. The table of `event_fields` is
-- read off the pydantic model by introspection; here it is a parameter, with the kinds a field holds.
pub mod Accepted
pub mod Refused
use sentinel_linux.Prelude.{
  Bool, true, false, Option, none, some, List, [], ◌∷◌, any, all, not, ◌&&◌, ◌||◌, if◌then◌else◌,
  String,
}
use sentinel_linux.Prelude.Eq.{text_key}
use sentinel_linux.Dict
use sentinel_linux.Dict.{Dict}
use sentinel_linux.Detection.Value.{Scalar, str, int, float, bool, RuleValue}
use sentinel_linux.Detection.Schema.{
  Condition, Conditions, Threshold, Operator, match_field, all_of, any_of, not_of, threshold, cons,
  nil, make, equals, not_equals, contains, not_contains, startswith, endswith, regex, gt, gte, lt,
  lte, is_in, not_in,
}

-- The kinds 'str', 'int', 'float', 'bool'.
pub data Kind : Type 0 where
  textual integer floating boolean : Kind

abbrev pub same_kind : Kind → Kind → Bool
same_kind textual textual = true
same_kind integer integer = true
same_kind floating floating = true
same_kind boolean boolean = true
same_kind _ _ = false

-- `_NUMERIC_OPS` and `_TEXT_OPS`
abbrev pub numeric_op : Operator → Bool
numeric_op gt = true
numeric_op gte = true
numeric_op lt = true
numeric_op lte = true
numeric_op _ = false

abbrev pub text_op : Operator → Bool
text_op contains = true
text_op not_contains = true
text_op startswith = true
text_op endswith = true
text_op regex = true
text_op _ = false

-- `_LIST_OPS`; the others are the `_SCALAR_OPS`.
abbrev pub list_op : Operator → Bool
list_op is_in = true
list_op not_in = true
list_op _ = false

-- `_kind_of`
abbrev pub kind_of : Scalar → Kind
kind_of (str s) = textual
kind_of (int z) = integer
kind_of (float m k) = floating
kind_of (bool b) = boolean

abbrev pub holds : Kind → List Kind → Bool
holds k kinds = any (same_kind k) kinds

-- `kinds & {"int", "float"}` is not empty.
abbrev pub is_numeric : List Kind → Bool
is_numeric kinds = any (λ k. same_kind k integer || same_kind k floating) kinds

abbrev pub compatible : List Kind → Scalar → Bool
compatible kinds item =
    holds (kind_of item) kinds
    || ((same_kind (kind_of item) integer || same_kind (kind_of item) floating) && is_numeric kinds)

-- `value if isinstance(value, list) else [value]`
abbrev pub values_of : RuleValue → List Scalar
values_of (RuleValue.scalar s) = s ∷ []
values_of (RuleValue.list l) = l

-- The errors of the checks, in the code's order.
pub data Verdict : Type 0 where
  valid requires_list requires_scalar unknown_field needs_numeric needs_text never_holds
        nested_threshold unknown_group_by :
      Verdict

-- `_validate_field_form`, for a node that has an operator and a value.
abbrev is_list : RuleValue → Bool
is_list (RuleValue.scalar s) = false
is_list (RuleValue.list l) = true

unfoldable pub validate_field_form : Operator → RuleValue → Verdict
validate_field_form op value =
    if list_op op && not (is_list value)
    then requires_list
    else if not (list_op op) && is_list value
    then requires_scalar
    else valid

abbrev pub check_kinds : Operator → RuleValue → List Kind → Verdict
check_kinds op value kinds =
    if numeric_op op && not (is_numeric kinds)
    then needs_numeric
    else if text_op op && not (holds textual kinds)
    then needs_text
    else if all (compatible kinds) (values_of value)
    then valid
    else never_holds

abbrev pub check_known : Operator → RuleValue → Option (List Kind) → Verdict
check_known op value none = unknown_field
check_known op value (some kinds) = check_kinds op value kinds

-- The second check is run only if the first one passes.
abbrev pub then_check : Verdict → Verdict → Verdict
then_check valid next = next
then_check requires_list next = requires_list
then_check requires_scalar next = requires_scalar
then_check unknown_field next = unknown_field
then_check needs_numeric next = needs_numeric
then_check needs_text next = needs_text
then_check never_holds next = never_holds
then_check nested_threshold next = nested_threshold
then_check unknown_group_by next = unknown_group_by

module _ (event_fields : Dict String (List Kind)) where
  -- `_check_field`
  unfoldable pub check_field : String → Operator → RuleValue → Verdict
  check_field path op value = check_known op value (Dict.get path event_fields)

  -- `_check_condition` below the root, and at the root.
  unfoldable mutual
    unfolding check_field validate_field_form

    pub check_inner : Condition → Verdict
    check_inner (match_field path op value) = check_field path op value
    check_inner (all_of cs) = check_children cs
    check_inner (any_of cs) = check_children cs
    check_inner (not_of c) = check_inner c
    check_inner (threshold t) = nested_threshold

    -- The loop over the children raises the first error.
    pub check_children : Conditions → Verdict
    check_children nil = valid
    check_children (cons c cs) = then_check (check_inner c) (check_children cs)

  abbrev check_threshold : Threshold → Verdict
  check_threshold (make match window count group_by) =
      if Dict.has group_by event_fields then check_inner match else unknown_group_by

  unfoldable pub check_condition : Condition → Verdict
  unfolding check_inner
  check_condition (match_field path op value) = check_field path op value
  check_condition (all_of cs) = check_children cs
  check_condition (any_of cs) = check_children cs
  check_condition (not_of c) = check_inner c
  check_condition (threshold t) = check_threshold t
