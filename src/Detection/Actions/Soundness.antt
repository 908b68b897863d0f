-- ===== src/Detection/Actions/Soundness.antt =====
-- `required_actions` of src/sentinel/detection/engine.py against the evaluator of conditions.
use sentinel_linux.Prelude.{
  ◌≡◌, ◌⊎◌, refl, Bool, true, false, Option, none, some, List, [], ◌∷◌, ◌++◌, all, keep, String,
  arith, All, Bool-cases, Option-cases, inl, inr, ap,
}
use text.Mathlib.Text.{◌==◌ as str_eq}
use text.Mathlib.TextEquality.{eq_iff}
use sentinel_linux.Detection.Value.{
  Scalar, str, RuleValue, Value, value_eq, value_in, int, float, bool,
}
use sentinel_linux.Detection.Schema.{
  Operator, equals, is_in, Condition, Conditions, Threshold, match_field, all_of, any_of, not_of,
  threshold, nil, cons, make,
}
use sentinel_linux.Detection.Evaluator.{
  Search, answer, incomplete, resolve_field, operator, evaluate, evaluate_match, evaluate_all,
  evaluate_any,
}
use sentinel_linux.Detection.Actions.{
  action_field, member, union, all_texts, actions_of, field_actions, intersect_restricting, unite,
  required_actions, required_match, restricting, branches, allows, add_restricting,
}

-- Every set of a list holds the action.
abbrev InEvery : String → List (List String) → Type 0
InEvery a sets = All (λ s. member a s ≡ true) sets

InEvery-all : (a : String) (sets : List (List String)) → InEvery a sets → all (member a) sets ≡ true
InEvery-all a [] h = refl
InEvery-all a (s ∷ sets) h = rw h.0 (InEvery-all a sets h.1)

member-keep :
    (p : String → Bool) (a : String) (l : List String)
    → p a ≡ true
    → member a l ≡ true
    → member a (keep p l) ≡ true
unfolding member
member-keep p a [] h m = m
member-keep p a (x ∷ l) h m = elim (Bool-cases (str_eq x a)) [
  | inl same ↦ rw (ap p ((eq_iff x a).0 same), h) (rw same)
  | inr other ↦ ground (arith, member-keep p a l h)
]

member-append_left :
    (a : String) (xs ys : List String) → member a xs ≡ true → member a (xs ++ ys) ≡ true
unfolding member
member-append_left a [] ys h = cc
member-append_left a (x ∷ xs) ys h = ground (arith, member-append_left a xs ys)

member-append_right :
    (a : String) (xs ys : List String) → member a ys ≡ true → member a (xs ++ ys) ≡ true
unfolding member
member-append_right a [] ys h = h
member-append_right a (x ∷ xs) ys h = ground (arith, member-append_right a xs ys)

intersect-allows :
    (a : String) (sets : List (List String))
    → InEvery a sets
    → allows (intersect_restricting sets) a ≡ true
unfolding allows intersect_restricting
intersect-allows a [] h = refl
intersect-allows a (s ∷ sets) h =
    member-keep (λ x. all (member x) sets) a s (InEvery-all a sets h.1) h.0

-- The leaf: `event.action` equals a text, or is in a list of texts.
text_in :
    (a : String) (values : List Scalar) (l : List String)
    → all_texts values ≡ some l
    → value_in (some (Value.scalar (str a))) values ≡ true
    → member a l ≡ true
unfolding all_texts value_in member
text_in a [] l e h = cc
text_in a (str s ∷ values) l e h = elim (Option-cases (all_texts values)) [
  | inl other ↦ absurd (ground arith)
  | inr (l', texts) ↦ ground (arith, text_in a values l' texts, eq_iff a s, eq_iff s a)
]
text_in a (int z ∷ values) l e h = cc
text_in a (float m k ∷ values) l e h = cc
text_in a (bool b ∷ values) l e h = cc

actions_of-allows :
    (engine : String → String → Search) (a : String) (op : Operator) (value : RuleValue)
    → operator engine op (some (Value.scalar (str a))) value ≡ answer true
    → allows (actions_of op value) a ≡ true
unfolding operator allows member value_eq
actions_of-allows engine a equals (RuleValue.scalar (str s)) h =
    ground (arith, eq_iff a s, eq_iff s a)
actions_of-allows engine a is_in (RuleValue.list values) h =
    elim (Option-cases (all_texts values)) [
      | inl other ↦ rw other refl
      | inr (l, texts) ↦ rw texts (text_in a values l texts (ground arith))
    ]
actions_of-allows engine a _ value h = refl

-- A condition list that holds, or has a branch that holds, by its first child.
all-cons :
    (engine : String → String → Search) (c : Condition) (cs : Conditions) (event : Value)
    → evaluate_all engine (cons c cs) event ≡ answer true
    → (evaluate engine c event ≡ answer true) × (evaluate_all engine cs event ≡ answer true)
unfolding evaluate_all
all-cons engine c cs event h = ground arith

any-cons :
    (engine : String → String → Search) (c : Condition) (cs : Conditions) (event : Value)
    → evaluate_any engine (cons c cs) event ≡ answer true
    → (evaluate engine c event ≡ answer true) ⊎ (evaluate_any engine cs event ≡ answer true)
unfolding evaluate_any
any-cons engine c cs event h = ground arith

add-InEvery :
    (a : String) (r : Option (List String)) (sets : List (List String))
    → allows r a ≡ true
    → InEvery a sets
    → InEvery a (add_restricting r sets)
unfolding allows
add-InEvery a none sets h hs = hs
add-InEvery a (some s) sets h hs = (h, hs)

unite-allows :
    (a : String) (sets : List (List String))
    → member a (union sets) ≡ true
    → allows (unite sets) a ≡ true
unfolding allows unite
unite-allows a [] h = refl
unite-allows a (s ∷ sets) h = h

branches-cons :
    (c : Condition) (cs : Conditions) (sets : List (List String))
    → branches (cons c cs) ≡ some sets
    → (s : List String) × (rest : List (List String)) × (required_actions c ≡ some s)
      × (branches cs ≡ some rest)
      × (sets ≡ s ∷ rest)
unfolding branches
branches-cons c cs sets h = elim (Option-cases (required_actions c)) [
  | inl any_action ↦ absurd (ground arith)
  | inr (s, e) ↦ elim (Option-cases (branches cs)) [
    | inl any_action ↦ absurd (ground arith)
    | inr (rest, e') ↦ (s, rest, e, e', ground arith)
  ]
]

module _ (engine : String → String → Search) (event : Value) (a : String)
    (view : resolve_field action_field event ≡ some (Value.scalar (str a))) where
  field-allows :
      (path : String) (op : Operator) (value : RuleValue)
      → operator engine op (resolve_field path event) value ≡ answer true
      → allows (field_actions path op value) a ≡ true
  unfolding field_actions allows
  field-allows path op value h = elim (Bool-cases (str_eq path action_field)) [
    | inr other ↦ rw other refl
    | inl same ↦
        rw same
          (actions_of-allows engine a op value (rw (← view, ← (eq_iff path action_field).0 same) h))
  ]

  mutual
    unfolding evaluate required_actions allows

    sound :
        (c : Condition)
        → evaluate engine c event ≡ answer true
        → allows (required_actions c) a ≡ true
    sound (match_field path op value) h = field-allows path op value h
    sound (all_of cs) h = intersect-allows a (restricting cs) (sound_all cs h)
    sound (any_of cs) h = elim (Option-cases (branches cs)) [
      | inl any_action ↦ rw any_action refl
      | inr (sets, e) ↦ rw e (unite-allows a sets (sound_any cs sets h e))
    ]
    sound (not_of c) h = refl
    sound (threshold t) h = sound_match t h

    sound_match :
        (t : Threshold)
        → evaluate_match engine t event ≡ answer true
        → allows (required_match t) a ≡ true
    sound_match (make c window count group_by) h = sound c h

    sound_all :
        (cs : Conditions) → evaluate_all engine cs event ≡ answer true → InEvery a (restricting cs)
    sound_all nil h = tt
    sound_all (cons c cs) h =
        let p = all-cons engine c cs event h in
        add-InEvery a (required_actions c) (restricting cs) (sound c p.0) (sound_all cs p.1)

    sound_any :
        (cs : Conditions) (sets : List (List String))
        → evaluate_any engine cs event ≡ answer true
        → branches cs ≡ some sets
        → member a (union sets) ≡ true
    sound_any nil sets h e = cc
    sound_any (cons c cs) sets h e =
        let (s, rest, ec, ecs, es) = branches-cons c cs sets e in
        rw es (elim (any-cons engine c cs event h) [
          | inl first ↦ member-append_left a s (union rest) (rw ec at (sound c first))
          | inr later ↦ member-append_right a s (union rest) (sound_any cs rest later ecs)
        ])

  -- In a rule left out by the index the condition is false or undecided, never true.
  pub skipped_condition :
      (c : Condition)
      → allows (required_actions c) a ≡ false
      → (evaluate engine c event ≡ answer false) ⊎ (evaluate engine c event ≡ incomplete)
  skipped_condition c h = ground (arith, sound c)
