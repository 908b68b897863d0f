-- ===== src/Runtime/Paths.antt =====
-- The check of watched paths in src/sentinel/runtime.py: the literal prefixes of the `file.path` a
-- condition tests, and the rules whose paths no watched path covers.
pub mod Prefixes
use text.Mathlib.Text.{◌==◌ as str_eq}
use Prim.Native.Char.{Char, code}
use sentinel_linux.Prelude.{
  ℕ, ◌-◌, Bool, true, false, Option, none, some, List, [], ◌∷◌, ◌++◌, map, keep, any, not, ◌||◌,
  ◌&&◌, if◌then◌else◌, String, eqb,
}
use sentinel_linux.Prelude.Eq.{text_key}
use sentinel_linux.Prelude.Text.{
  text_append, text_starts, text_contains, text_drop, text_take, text_length, text_split, empty,
}
use sentinel_linux.Dict
use sentinel_linux.Dict.{Dict}
use sentinel_linux.Detection.Value.{str, RuleValue}
use sentinel_linux.Detection.Schema.{
  Rule, Condition, Conditions, Threshold, Operator, match_field, all_of, any_of, not_of, threshold,
  cons, nil, make, equals, startswith, regex,
}

-- `char in _REGEX_META` and `char in _QUANTIFIERS`
abbrev pub is_one_of : String → Char → Bool
is_one_of chars c = text_contains chars (String.◌∷◌ c String.[])

abbrev pub regex_meta : Char → Bool
regex_meta = is_one_of ".^$*+?{}[]()|\\"

abbrev pub quantifier : Char → Bool
quantifier = is_one_of "?*{"

-- `index + 1 < len(pattern) and pattern[index + 1] in _QUANTIFIERS`
abbrev pub quantified : String → Bool
quantified String.[] = false
quantified (String.◌∷◌ c s) = quantifier c

-- `prefix.append(char)`, and `prefix.pop()` of a prefix that is not empty.
abbrev pub append_char : String → Char → String
append_char prefix c = text_append prefix (String.◌∷◌ c String.[])

abbrev pub pop : String → String
pop prefix = text_take (text_length prefix - 1) prefix

-- The loop of `_literal_prefix`, from the prefix read so far.
unfoldable pub prefix_from : String → String → String
prefix_from prefix String.[] = prefix
prefix_from prefix (String.◌∷◌ c s) =
    let rest = prefix_from (append_char prefix c) s in
    if regex_meta c
    then (if quantifier c then pop prefix else prefix)
    else if quantified s
    then pop (append_char prefix c)
    else rest

unfoldable pub literal_prefix : String → String
unfolding prefix_from
literal_prefix pattern = prefix_from empty pattern

-- `body[3:].split(")", 1)` where a ")" is known to be there: what stands before and after it.
abbrev pub cut : String → String × String
cut String.[] = (String.[], String.[])
cut (String.◌∷◌ c s) =
    let (front, back) = cut s in
    if eqb (code c) 0x29 then (String.[], s) else (String.◌∷◌ c front, back)

-- `_regex_path_prefixes`
abbrev alternatives : String × String → List String
alternatives (group, rest) =
    map (λ alternative. literal_prefix (text_append alternative rest)) (text_split 0x7c group)

unfoldable pub regex_path_prefixes : String → List String
unfolding literal_prefix
regex_path_prefixes pattern =
    if text_starts pattern "^"
    then (let body = text_drop 1 pattern in
        if text_starts body "(?:" && text_contains body ")"
        then alternatives (cut (text_drop 3 body))
        else literal_prefix body ∷ [])
    else []

abbrev leaf_prefixes : Operator → RuleValue → List String
leaf_prefixes equals (RuleValue.scalar (str s)) = s ∷ []
leaf_prefixes startswith (RuleValue.scalar (str s)) = s ∷ []
leaf_prefixes regex (RuleValue.scalar (str s)) =
    keep (λ prefix. not (str_eq prefix "")) (regex_path_prefixes s)
leaf_prefixes _ _ = []

-- `_file_path_prefixes`
unfoldable mutual
  unfolding regex_path_prefixes

  pub file_path_prefixes : Condition → List String
  file_path_prefixes (match_field path op value) =
      if str_eq path "file.path" then leaf_prefixes op value else []
  file_path_prefixes (all_of cs) = children_prefixes cs
  file_path_prefixes (any_of cs) = children_prefixes cs
  file_path_prefixes (not_of c) = file_path_prefixes c
  file_path_prefixes (threshold t) = threshold_prefixes t

  pub threshold_prefixes : Threshold → List String
  threshold_prefixes (make match window count group_by) = file_path_prefixes match

  pub children_prefixes : Conditions → List String
  children_prefixes nil = []
  children_prefixes (cons c cs) = file_path_prefixes c ++ children_prefixes cs

-- `root.rstrip("/")`: a "/" is dropped when nothing but "/" follows.
abbrev strip_slashes : String → String
strip_slashes String.[] = String.[]
strip_slashes (String.◌∷◌ c s) =
    let rest = strip_slashes s in
    if str_eq rest "" && eqb (code c) 0x2f then String.[] else String.◌∷◌ c rest

-- `covered`
unfoldable pub covered : List String → String → Bool
covered watched prefix =
    any
      (λ root.
        text_starts prefix (text_append (strip_slashes root) "/")
        || (str_eq prefix root || text_starts root prefix))
      watched

abbrev pub missing_paths : List String → Rule → List String
missing_paths watched rule =
    keep (λ prefix. not (covered watched prefix)) (file_path_prefixes rule.condition)

abbrev report : Rule → List String → Dict String (List String) → Dict String (List String)
report rule [] uncovered = uncovered
report rule (p ∷ ps) uncovered = Dict.set rule.id (p ∷ ps) uncovered

-- The loop of `unwatched_rule_paths`.
unfoldable pub report_all :
    List Rule → List String → Dict String (List String) → Dict String (List String)
unfolding covered file_path_prefixes
report_all [] watched uncovered = uncovered
report_all (rule ∷ rules) watched uncovered =
    report_all rules watched (report rule (missing_paths watched rule) uncovered)

unfoldable pub unwatched_rule_paths : List Rule → List String → Dict String (List String)
unfolding report_all
unwatched_rule_paths rules watched = report_all rules watched []
