-- ===== src/Detection/Loader/Regexes.antt =====
-- The regexes of a condition, as the walk over its nodes finds them.
use sentinel_linux.Prelude.{
  ◌≡◌, ◌↔◌, refl, sym, ◌∙◌, Bool, true, Option, none, some, List, [], ◌∷◌, ◌++◌, String, inl, inr,
  Bool-cases,
}
use sentinel_linux.Prelude.Eq.{text_key}
use sentinel_linux.Detection.Schema.{
  Condition, Conditions, Threshold, match_field, all_of, any_of, not_of, threshold, nil, cons, make,
}
use sentinel_linux.Detection.Loader.{
  iter_conditions, iter_children, regex_pattern, pattern_of, bad_pattern, or_later, first_invalid,
}

module _ (compiles : String → Bool) where
  abbrev pub PatternCompiles : Option String → Type 0
  PatternCompiles none = Unit
  PatternCompiles (some pattern) = compiles pattern ≡ true

-- Every regex of a condition compiles, at whatever depth it stands.
mutual
  pub RegexesCompile : (String → Bool) → Condition → Type 0
  RegexesCompile compiles (match_field path op value) =
      PatternCompiles compiles (regex_pattern op value)
  RegexesCompile compiles (all_of cs) = EachCompiles compiles cs
  RegexesCompile compiles (any_of cs) = EachCompiles compiles cs
  RegexesCompile compiles (not_of c) = RegexesCompile compiles c
  RegexesCompile compiles (threshold t) = MatchCompiles compiles t

  pub MatchCompiles : (String → Bool) → Threshold → Type 0
  MatchCompiles compiles (make c window count group_by) = RegexesCompile compiles c

  pub EachCompiles : (String → Bool) → Conditions → Type 0
  EachCompiles compiles nil = Unit
  EachCompiles compiles (cons c cs) = RegexesCompile compiles c × EachCompiles compiles cs

module _ (compiles : String → Bool) where
  first_invalid-append :
      (xs ys : List Condition)
      → first_invalid compiles (xs ++ ys)
        ≡ or_later compiles (first_invalid compiles xs) (first_invalid compiles ys)
  unfolding first_invalid
  first_invalid-append [] ys = refl
  first_invalid-append (c ∷ xs) ys =
      go (bad_pattern compiles (pattern_of c)) (first_invalid-append xs ys)
    where
      go :
          (o : Option String)
          → first_invalid compiles (xs ++ ys)
            ≡ or_later compiles (first_invalid compiles xs) (first_invalid compiles ys)
          → or_later compiles o (first_invalid compiles (xs ++ ys))
            ≡ or_later compiles
                (or_later compiles o (first_invalid compiles xs))
                (first_invalid compiles ys)
      go none h = h
      go (some p) h = refl

  or_later-none : (a b : Option String) → (or_later compiles a b ≡ none) ↔ ((a ≡ none) × (b ≡ none))
  or_later-none none b = ((λ h. (refl, h)), (λ h. h.1))
  or_later-none (some p) b = ((λ h. cc), (λ h. h.0))

  bad_pattern-none :
      (o : Option String) → (bad_pattern compiles o ≡ none) ↔ PatternCompiles compiles o
  bad_pattern-none none = ((λ h. tt), (λ h. refl))
  bad_pattern-none (some p) = elim (Bool-cases (compiles p)) [
    | inl good ↦ ((λ h. good), (λ h. rw good refl))
    | inr bad ↦ ((λ h. let no : some p ≡ none = rw bad at h in cc), (λ h. cc))
  ]

mutual
  unfolding first_invalid iter_conditions RegexesCompile

  pub regexes_iff :
      (compiles : String → Bool) (c : Condition)
      → (first_invalid compiles (iter_conditions c) ≡ none) ↔ RegexesCompile compiles c
  regexes_iff compiles (match_field path op value) =
      let both = or_later-none compiles (bad_pattern compiles (regex_pattern op value)) none in
      let leaf = bad_pattern-none compiles (regex_pattern op value) in
      ((λ h. leaf.0 (both.0 h).0), (λ h. both.1 (leaf.1 h, refl)))
  regexes_iff compiles (all_of cs) = children_iff compiles cs
  regexes_iff compiles (any_of cs) = children_iff compiles cs
  regexes_iff compiles (not_of c) = regexes_iff compiles c
  regexes_iff compiles (threshold (make c window count group_by)) = regexes_iff compiles c

  children_iff :
      (compiles : String → Bool) (cs : Conditions)
      → (first_invalid compiles (iter_children cs) ≡ none) ↔ EachCompiles compiles cs
  children_iff compiles nil = ((λ h. tt), (λ h. refl))
  children_iff compiles (cons c cs) =
      let split = first_invalid-append compiles (iter_conditions c) (iter_children cs) in
      let both =
        or_later-none compiles (first_invalid compiles (iter_conditions c))
          (first_invalid compiles (iter_children cs)) in
      let one = regexes_iff compiles c in
      let rest = children_iff compiles cs in
      (
        (λ h. let k = both.0 (sym split ∙ h) in (one.0 k.0, rest.0 k.1)),
        (λ h. split ∙ both.1 (one.1 h.0, rest.1 h.1)),
      )
