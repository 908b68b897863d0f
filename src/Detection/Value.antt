-- ===== src/Detection/Value.antt =====
-- The plain-dict view of an event that rules are evaluated on, and the values that a rule may hold
-- (`RuleValue` of src/sentinel/detection/schema.py), with Python's `==` between the two.
-- A finite float is exact: `float m k` is m / 2^k. Infinities and NaN are left out.
use sentinel_linux.Prelude.{
  ℕ, ◌^◌, Bool, true, false, Option, none, some, List, [], ◌∷◌, ◌&&◌, ◌||◌, if◌then◌else◌, String,
}
use sentinel_linux.Prelude.Int.{ℤ, pos, eqb_scaled}
use text.Mathlib.Text.{◌==◌ as str_eq}

pub data Scalar : Type 0 where
  str : String → Scalar
  int : ℤ → Scalar
  float : ℤ → ℕ → Scalar
  bool : Bool → Scalar

pub data RuleValue : Type 0 where
  scalar : Scalar → RuleValue
  list : List Scalar → RuleValue

mutual
  pub data Value : Type 0 where
    null : Value
    scalar : Scalar → Value
    list : Values → Value
    dict : Fields → Value

  pub data Values : Type 0 where
    no_values : Values
    value : Value → Values → Values

  pub data Fields : Type 0 where
    no_fields : Fields
    entry : String → Value → Fields → Fields

-- A number as numerator and binary exponent of the denominator; True and False count as 1 and 0.
abbrev pub number : Scalar → Option (ℤ × ℕ)
number (str s) = none
number (int z) = some (z, 0)
number (float m k) = some (m, k)
number (bool true) = some (pos 1, 0)
number (bool false) = some (pos 0, 0)

abbrev pub same_number : Option (ℤ × ℕ) → Option (ℤ × ℕ) → Bool
same_number (some (a, j)) (some (b, k)) = eqb_scaled a (2 ^ k) b (2 ^ j)
same_number _ _ = false

-- `==` of two scalars: texts by content, numbers and booleans by value.
unfoldable pub scalar_eq : Scalar → Scalar → Bool
scalar_eq (str s) (str t) = str_eq s t
scalar_eq a b = same_number (number a) (number b)

unfoldable pub value_eq_scalar : Value → Scalar → Bool
unfolding scalar_eq
value_eq_scalar (scalar a) b = scalar_eq a b
value_eq_scalar _ b = false

unfoldable pub values_eq : Values → List Scalar → Bool
unfolding value_eq_scalar
values_eq no_values [] = true
values_eq (value v vs) (b ∷ bs) = value_eq_scalar v b && values_eq vs bs
values_eq _ _ = false

-- `a == e` of an event value (`none` is Python's None) and a rule value.
unfoldable pub value_eq : Option Value → RuleValue → Bool
unfolding value_eq_scalar values_eq
value_eq (some v) (RuleValue.scalar b) = value_eq_scalar v b
value_eq (some (Value.list vs)) (RuleValue.list bs) = values_eq vs bs
value_eq _ _ = false

-- `a in e` for a rule's list.
unfoldable pub value_in : Option Value → List Scalar → Bool
unfolding value_eq
value_in a [] = false
value_in a (b ∷ bs) = value_eq a (RuleValue.scalar b) || value_in a bs

-- `e in a` for a list of the event.
unfoldable pub values_contain : Values → RuleValue → Bool
unfolding value_eq
values_contain no_values e = false
values_contain (value v vs) e = value_eq (some v) e || values_contain vs e

-- `current.get(part)` of a dict; a missing key and a null are both None.
abbrev present : Value → Option Value
present null = none
present v = some v

unfoldable pub get_field : String → Fields → Option Value
get_field part no_fields = none
get_field part (entry k v fs) =
    let rest = get_field part fs in if str_eq k part then present v else rest
