-- ===== src/Events/Ids.antt =====
-- The validators of src/sentinel/events.py and the content hash. SHA-256 (hashlib) is a parameter.
use sentinel_linux.Prelude.{
  ℕ, zero, ◌≡◌, ◌≢◌, refl, ap, sym, ◌∙◌, Bool, true, false, ◌&&◌, ◌||◌, not, Option, none, some,
  String, List, [], ◌∷◌, eqb, leb, if◌then◌else◌, All,
}
use sentinel_linux.Prelude.Text.{text_length, text_append, text_join, text_split}
use sentinel_linux.Prelude.Int.{ℤ, pos}
use Prim.Native.Char.{code}

abbrev pub hex_digest_len : ℕ
hex_digest_len = 64

-- `set(value).issubset("0123456789abcdef")`
abbrev is_hex : ℕ → Bool
is_hex c = (leb b'0' c && leb c b'9') || (leb b'a' c && leb c b'f')

unfoldable pub all_hex : String → Bool
all_hex String.[] = true
all_hex (String.◌∷◌ c s) = is_hex (code c) && all_hex s

-- `_check_id_format`; `none` is its ValueError.
unfoldable pub check_id_format : String → Option String
unfolding all_hex
check_id_format value =
    if not (eqb (text_length value) hex_digest_len) || not (all_hex value) then none else some value

-- `_check_sha256_format` of an optional digest.
unfoldable pub check_sha256_format : Option String → Option (Option String)
unfolding check_id_format
check_sha256_format none = some none
check_sha256_format (some value) = elim (check_id_format value) [
  | none ↦ none
  | some v ↦ some (some v)
]

-- A datetime: microseconds, and the offset of its time zone in microseconds if it has one.
pub record Datetime : Type 0 where
  pub micros : ℕ
  pub utcoffset : Option ℤ

abbrev utc_only : Datetime → Option ℤ → Option Datetime
utc_only value none = none
utc_only value (some (pos zero)) = some value
utc_only value (some _) = none

-- `_require_utc`
unfoldable pub require_utc : Datetime → Option Datetime
require_utc value = utc_only value value.utcoffset

-- `"\x1f".join(parts)` over the parts as texts (`repr` of what is no text is the caller's).
abbrev pub separator : String
separator = "\u{1f}"

unfoldable pub canonical : List String → String
canonical parts = text_join separator parts

-- `Event.compute_id`
unfoldable pub compute_id : (String → String) → List String → String
unfolding canonical
compute_id sha256 parts = sha256 (canonical parts)

-- The text holds no unit separator.
abbrev pub IsClean : String → Type 0
IsClean String.[] = Unit
IsClean (String.◌∷◌ c s) = (eqb (code c) 0x1f ≡ false) × IsClean s

split-field :
    (p rest : String)
    → IsClean p
    → text_split 0x1f (text_append p (text_append separator rest)) ≡ p ∷ text_split 0x1f rest
split-field String.[] rest h = refl
split-field (String.◌∷◌ c p) rest h = rw (h.0, split-field p rest h.1)

split-last : (p : String) → IsClean p → text_split 0x1f p ≡ p ∷ []
split-last String.[] h = refl
split-last (String.◌∷◌ c p) h = rw (h.0, split-last p h.1)

-- The separator is unambiguous: the parts can be read back from the canonical text, if there is a
-- part and none holds the separator.
pub split-canonical :
    (part : String) (parts : List String)
    → IsClean part
    → All IsClean parts
    → text_split 0x1f (canonical (part ∷ parts)) ≡ part ∷ parts
unfolding canonical
split-canonical part [] h hs = split-last part h
split-canonical part (next ∷ parts) h hs =
    rw (split-field part (text_join separator (next ∷ parts)) h)
      (ap (◌∷◌ part) (split-canonical next parts hs.0 hs.1))

-- Two events with different clean parts share an id only by a collision of SHA-256: their
-- canonical texts differ, and have the same digest.
pub compute_id_collision :
    (sha256 : String → String) (p : String) (ps : List String) (q : String) (qs : List String)
    → IsClean p
    → All IsClean ps
    → IsClean q
    → All IsClean qs
    → ◌≢◌ {A = List String} (p ∷ ps) (q ∷ qs)
    → compute_id sha256 (p ∷ ps) ≡ compute_id sha256 (q ∷ qs)
    → (canonical (p ∷ ps) ≢ canonical (q ∷ qs))
      × (sha256 (canonical (p ∷ ps)) ≡ sha256 (canonical (q ∷ qs)))
unfolding compute_id
compute_id_collision sha256 p ps q qs hp hps hq hqs differ e = (
  λ same.
      differ (
        sym (split-canonical p ps hp hps)
        ∙ ap (text_split 0x1f) same
        ∙ split-canonical q qs hq hqs),
  e,
)
