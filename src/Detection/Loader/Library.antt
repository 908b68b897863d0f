-- ===== src/Detection/Loader/Library.antt =====
-- Which rule libraries load.
use sentinel_linux.Prelude.{◌≢◌, ◌≡◌, Bool, false, List, [], ◌∷◌, All, String}
use sentinel_linux.Prelude.Eq.{text_key}
use sentinel_linux.Dict.{Dict, has}
use sentinel_linux.Detection.Schema.{Rule}
use sentinel_linux.Detection.Loader.{RuleFile, mapping}
use sentinel_linux.Detection.Loader.Regexes.{RegexesCompile}

module _ (compiles : String → Bool) where
  -- A rule whose file is accepted.
  abbrev Accepts : RuleFile → Rule → Type 0
  Accepts file r = (file ≡ mapping r) × RegexesCompile compiles r.condition

  -- The files and the rules that a library consists of, one for one, no two of them with one id.
  pub data Library : List (String × RuleFile) → List Rule → Type 0 where
    empty : Library [] []
    with_rule :
        (path : String) (file : RuleFile) (r : Rule) (files : List (String × RuleFile))
        (rs : List Rule)
        → file ≡ mapping r
        → RegexesCompile compiles r.condition
        → All (λ (s : Rule). s.id ≢ r.id) rs
        → Library files rs
        → Library ((path, file) ∷ files) (r ∷ rs)

  -- Beside it, no rule's id was seen before.
  abbrev Unseen : Dict String String → List Rule → Type 0
  Unseen seen rs = All (λ (r : Rule). has r.id seen ≡ false) rs
