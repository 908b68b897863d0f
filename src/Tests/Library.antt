-- ===== src/Tests/Library.antt =====
-- A concrete rule directory, and the witness of the theorem on the rule loader.
use sentinel_linux.Prelude.{◌≡◌, refl, Bool, true, not, none, some, List, [], ◌∷◌, String}
use sentinel_linux.Prelude.Text.{text_contains}
use sentinel_linux.Detection.Value.{RuleValue, str}
use sentinel_linux.Detection.Schema.{Rule, match_field, not_of, all_of, cons, nil, regex, equals}
use sentinel_linux.Detection.Loader.{
  RuleFile, mapping, loaded, failed, invalid_regex, duplicate_id, load_rules,
}
use sentinel_linux.Detection.Loader.Library.{Library}

-- A pattern with an open bracket does not compile.
abbrev compiles : String → Bool
compiles pattern = not (text_contains pattern "[")

abbrev rule : String → String → Rule
rule id pattern = record {
  id = id;
  title = "title";
  severity = 3;
  attack = [];
  nist_csf = [];
  d3fend = [];
  condition = all_of (
      cons (match_field "event.action" equals (RuleValue.scalar (str "file_created")))
        (cons (not_of (match_field "file.path" regex (RuleValue.scalar (str pattern)))) nil));
  throttle = none;
  enabled = true;
}

abbrev two_files : List (String × RuleFile)
two_files = ("a.yml", mapping (rule "a" "^/tmp")) ∷ ("b.yml", mapping (rule "b" "^/var")) ∷ []

two_loaded :
    load_rules compiles (some two_files) ≡ loaded (rule "a" "^/tmp" ∷ rule "b" "^/var" ∷ [])
unfolding load_rules
two_loaded = refl

nested_regex :
    load_rules compiles (some (("a.yml", mapping (rule "a" "[")) ∷ [])) ≡ failed (invalid_regex "[")
unfolding load_rules
nested_regex = refl

same_id :
    load_rules compiles
      (some (("a.yml", mapping (rule "a" "x")) ∷ ("b.yml", mapping (rule "a" "y")) ∷ []))
    ≡ failed (duplicate_id "a" "b.yml")
unfolding load_rules
same_id = refl
