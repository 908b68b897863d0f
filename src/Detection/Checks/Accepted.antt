-- ===== src/Detection/Checks/Accepted.antt =====
-- Which conditions the checks of src/sentinel/detection/schema.py accept.
use sentinel_linux.Prelude.{
  ◌≡◌, ◌↔◌, refl, Bool, true, Option, none, some, List, all, not, ◌&&◌, if◌then◌else◌, String,
  arith,
}
use sentinel_linux.Prelude.Eq.{text_key}
use sentinel_linux.Dict
use sentinel_linux.Dict.{Dict}
use sentinel_linux.Detection.Value.{RuleValue}
use sentinel_linux.Detection.Schema.{
  Condition, Conditions, Threshold, Operator, match_field, all_of, any_of, not_of, threshold, cons,
  nil, make,
}
use sentinel_linux.Detection.Checks.{
  Kind, textual, numeric_op, text_op, holds, is_numeric, compatible, values_of, Verdict, valid,
  needs_numeric, needs_text, never_holds, check_known, check_field, check_inner, check_children,
  then_check,
}

module _ (event_fields : Dict String (List Kind)) where
  -- A leaf compares a field of the event model by an operator for its kind, with values it can hold.
  pub record Comparable (path : String) (op : Operator) (value : RuleValue) : Type 0 where
    pub kinds : List Kind
    pub known : Dict.get path event_fields ≡ some kinds
    pub ordered : numeric_op op ≡ true → is_numeric kinds ≡ true
    pub text : text_op op ≡ true → holds textual kinds ≡ true
    pub values : all (compatible kinds) (values_of value) ≡ true

  unfoldable mutual
    pub Inner : Condition → Type 0
    Inner (match_field path op value) = Comparable path op value
    Inner (all_of cs) = Inners cs
    Inner (any_of cs) = Inners cs
    Inner (not_of c) = Inner c
    Inner (threshold t) = ⊥

    pub Inners : Conditions → Type 0
    Inners nil = Unit
    Inners (cons c cs) = Inner c × Inners cs

  abbrev pub Rooted : Threshold → Type 0
  Rooted (make match window count group_by) = (Dict.has group_by event_fields ≡ true) × Inner match

  -- A threshold only at the root, grouped by a field of the event model.
  abbrev pub Accepted : Condition → Type 0
  Accepted (match_field path op value) = Comparable path op value
  Accepted (all_of cs) = Inners cs
  Accepted (any_of cs) = Inners cs
  Accepted (not_of c) = Inner c
  Accepted (threshold t) = Rooted t

  -- The three tests of `_check_field` in a row.
  pick :
      (n num t tx ok : Bool)
      → ((if n && not num
            then needs_numeric
            else if t && not tx
            then needs_text
            else if ok
            then valid
            else never_holds)
          ≡ valid)
        ↔ ((n ≡ true → num ≡ true) × (t ≡ true → tx ≡ true) × (ok ≡ true))
  pick n num t tx ok = ground arith

  check_field-Comparable :
      (path : String) (op : Operator) (value : RuleValue)
      → (check_field event_fields path op value ≡ valid) ↔ Comparable path op value
  unfolding check_field
  check_field-Comparable path op value = (accept (Dict.get path event_fields) refl, λ c. given c)
    where
      accept :
          (o : Option (List Kind))
          → Dict.get path event_fields ≡ o
          → check_known op value o ≡ valid
          → Comparable path op value
      accept none e h = cc
      accept (some kinds) e h =
          let r =
            (pick (numeric_op op) (is_numeric kinds) (text_op op) (holds textual kinds)
                (all (compatible kinds) (values_of value))).0
              h in
          record { kinds = kinds; known = e; ordered = r.0; text = r.1; values = r.2 }

      given : Comparable path op value → check_known op value (Dict.get path event_fields) ≡ valid
      given c = rw (c.known) (
          (pick (numeric_op op) (is_numeric c.kinds) (text_op op) (holds textual c.kinds)
              (all (compatible c.kinds) (values_of value))).1
            (c.ordered, c.text, c.values))

  then_check-valid : (v w : Verdict) → (then_check v w ≡ valid) ↔ ((v ≡ valid) × (w ≡ valid))
  then_check-valid v w = ground arith

  mutual
    unfolding check_inner check_children Inner Inners

    inner : (c : Condition) → (check_inner event_fields c ≡ valid) ↔ Inner c
    inner (match_field path op value) = check_field-Comparable path op value
    inner (all_of cs) = inners cs
    inner (any_of cs) = inners cs
    inner (not_of c) = inner c
    inner (threshold t) = (λ h. cc, λ h. elim h [ ])

    inners : (cs : Conditions) → (check_children event_fields cs ≡ valid) ↔ Inners cs
    inners nil = (λ h. tt, λ h. refl)
    inners (cons c cs) =
        let r = inner c in
        let rs = inners cs in
        let v = then_check-valid (check_inner event_fields c) (check_children event_fields cs) in
        (λ h. (r.0 (v.0 h).0, rs.0 (v.0 h).1), λ h. v.1 (r.1 h.0, rs.1 h.1))
