-- ===== src/Detection/Checks/Refused.antt =====
-- A comparison that the checks of src/sentinel/detection/schema.py refuse for the kind of its field.
use sentinel_linux.Prelude.{
  ℕ, ◌≡◌, refl, ap, Bool, true, false, Option, none, some, List, [], ◌∷◌, all, not, ◌&&◌,
  if◌then◌else◌, String, arith, inl, inr, ◌⊎◌,
}
use sentinel_linux.Prelude.Eq.{text_key}
use sentinel_linux.Detection.Value.{str, int, float, bool, Value, RuleValue}
use sentinel_linux.Detection.Schema.{
  Operator, equals, not_equals, contains, not_contains, startswith, endswith, regex, gt, gte, lt,
  lte, is_in, not_in,
}
use sentinel_linux.Detection.Evaluator.{Search, answer, operator, numeric_compare, less}
use sentinel_linux.Prelude.Int.{ℤ}
use sentinel_linux.Detection.Checks.{
  Kind, textual, integer, floating, boolean, numeric_op, text_op, kind_of, holds, is_numeric,
  compatible, values_of, valid, needs_numeric, needs_text, never_holds, check_kinds,
}

-- What the view of an event holds at a path: nothing, or a scalar of one of the kinds.
abbrev pub Conforms : List Kind → Option Value → Type 0
Conforms kinds none = Unit
Conforms kinds (some (Value.scalar s)) = holds (kind_of s) kinds ≡ true
Conforms kinds (some Value.null) = ⊥
Conforms kinds (some (Value.list vs)) = ⊥
Conforms kinds (some (Value.dict fs)) = ⊥

holds_numeric :
    (k : Kind) (kinds : List Kind)
    → (k ≡ integer) ⊎ (k ≡ floating)
    → holds k kinds ≡ true
    → is_numeric kinds ≡ true
holds_numeric k [] e h = cc
holds_numeric integer (integer ∷ kinds) e h = refl
holds_numeric floating (floating ∷ kinds) e h = refl
holds_numeric integer (textual ∷ kinds) e h = holds_numeric integer kinds e h
holds_numeric integer (floating ∷ kinds) e h = refl
holds_numeric integer (boolean ∷ kinds) e h = holds_numeric integer kinds e h
holds_numeric floating (textual ∷ kinds) e h = holds_numeric floating kinds e h
holds_numeric floating (integer ∷ kinds) e h = refl
holds_numeric floating (boolean ∷ kinds) e h = holds_numeric floating kinds e h
holds_numeric textual (kind ∷ kinds) e h = ground arith
holds_numeric boolean (kind ∷ kinds) e h = ground arith

-- A field without a numeric kind compares with nothing.
never_compares :
    (kinds : List Kind) (actual : Option Value) (value : RuleValue)
    (order : (ℤ × ℕ) → (ℤ × ℕ) → Bool)
    → is_numeric kinds ≡ false
    → Conforms kinds actual
    → numeric_compare actual value order ≡ false
unfolding numeric_compare
never_compares kinds none value order n c = refl
never_compares kinds (some (Value.scalar (str s))) (RuleValue.scalar e) order n c = refl
never_compares kinds (some (Value.scalar (bool b))) (RuleValue.scalar e) order n c = refl
never_compares kinds (some (Value.scalar (int z))) value order n c =
    cc (n, holds_numeric integer kinds (inl refl) c)
never_compares kinds (some (Value.scalar (float m k))) value order n c =
    cc (n, holds_numeric floating kinds (inr refl) c)
never_compares kinds (some (Value.scalar (str s))) (RuleValue.list l) order n c = refl
never_compares kinds (some (Value.scalar (bool b))) (RuleValue.list l) order n c = refl
never_compares kinds (some Value.null) value order n c = refl
never_compares kinds (some (Value.list vs)) value order n c = refl
never_compares kinds (some (Value.dict fs)) value order n c = refl

numeric_refused :
    (op : Operator) (value : RuleValue) (kinds : List Kind)
    → check_kinds op value kinds ≡ needs_numeric
    → (numeric_op op ≡ true) × (is_numeric kinds ≡ false)
numeric_refused op value kinds h =
    go (numeric_op op) (is_numeric kinds) (text_op op) (holds textual kinds)
      (all (compatible kinds) (values_of value)) h
  where
    go :
        (n num t tx ok : Bool)
        → (if n && not num
            then needs_numeric
            else if t && not tx
            then needs_text
            else if ok
            then valid
            else never_holds)
          ≡ needs_numeric
        → (n ≡ true) × (num ≡ false)
    go n num t tx ok h = ground arith

-- A leaf refused because its operator needs a numeric field could never hold: on every value that
-- the field's kinds allow, and for every regex engine, the operator answers false.
pub refused_never_holds :
    (search : String → String → Search) (op : Operator) (value : RuleValue) (kinds : List Kind)
    (actual : Option Value)
    → check_kinds op value kinds ≡ needs_numeric
    → Conforms kinds actual
    → operator search op actual value ≡ answer false
unfolding operator
refused_never_holds search op value kinds actual refused conforms =
    let r = numeric_refused op value kinds refused in
    go op r.0 (λ order. never_compares kinds actual value order r.1 conforms)
  where
    go :
        (op : Operator)
        → numeric_op op ≡ true
        → ((order : (ℤ × ℕ) → (ℤ × ℕ) → Bool) → numeric_compare actual value order ≡ false)
        → operator search op actual value ≡ answer false
    go gt h never = ap answer (never (λ x y. less y x))
    go gte h never = ap answer (never (λ x y. not (less x y)))
    go lt h never = ap answer (never less)
    go lte h never = ap answer (never (λ x y. not (less y x)))
    go equals h never = cc
    go not_equals h never = cc
    go contains h never = cc
    go not_contains h never = cc
    go startswith h never = cc
    go endswith h never = cc
    go regex h never = cc
    go is_in h never = cc
    go not_in h never = cc
