-- ===== src/Prelude/Words.antt =====
-- Texts taken apart by Python's methods: `str.find`, `str.rfind`, `str.split()`, `str.strip`, and
-- `int` of a text of ASCII characters.
use Prim.Native.Nat.{ℕ, zero, suc, ◌+◌, ◌-◌, ◌*◌}
use Prim.Native.Char.{Char, code}
use Prim.Native.String.{String}
use mathlib.Core.Path.{◌≡◌, refl}
use mathlib.Core.Bool.{Bool, true, false, ◌&&◌, ◌||◌, not}
use mathlib.Core.Logic.{inl, inr}
use mathlib.Core.Option.{Option, none, some}
use mathlib.Core.List.{List, [], ◌∷◌}
use text.Mathlib.Text.{◌==◌ as str_eq}
use sentinel_linux.Prelude.Tests.{eqb, leb, if◌then◌else◌, Bool-cases}
use sentinel_linux.Prelude.Lists.{any}
use sentinel_linux.Prelude.Text.{text_append, text_length, text_drop, text_starts, cons_first}
use sentinel_linux.Prelude.Int.{ℤ, pos, negsuc}

-- The characters that Python's `str.rstrip` takes for white space.
abbrev pub is_space : ℕ → Bool
is_space n =
    (leb 9 n && leb n 13)
    || ((leb 28 n && leb n 32)
        || ((leb 0x2000 n && leb n 0x200a)
            || any (eqb n)
                (0x85 ∷ 0xa0 ∷ 0x1680 ∷ 0x2028 ∷ 0x2029 ∷ 0x202f ∷ 0x205f ∷ 0x3000 ∷ [])))

abbrev pub is_empty : String → Bool
is_empty String.[] = true
is_empty (String.◌∷◌ c s) = false

-- `s.rstrip()`
abbrev pub strip_end : String → String
strip_end String.[] = String.[]
strip_end (String.◌∷◌ c s) =
    let rest = strip_end s in
    if is_empty rest && is_space (code c) then String.[] else String.◌∷◌ c rest

-- `s.rstrip("\n")`
abbrev pub strip_newlines : String → String
strip_newlines String.[] = String.[]
strip_newlines (String.◌∷◌ c s) =
    let rest = strip_newlines s in
    if is_empty rest && eqb (code c) 10 then String.[] else String.◌∷◌ c rest

-- `s.lstrip()`
abbrev pub strip_start : String → String
strip_start String.[] = String.[]
strip_start (String.◌∷◌ c s) =
    let rest = strip_start s in if is_space (code c) then rest else String.◌∷◌ c s

-- `s.strip()`
abbrev pub strip : String → String
strip s = strip_end (strip_start s)

-- `s.find(c)` and `s.rfind(c)` of one character; `none` is -1.
abbrev pub text_find : ℕ → String → Option ℕ
text_find c String.[] = none
text_find c (String.◌∷◌ d s) =
    let rest = text_find c s in
    if eqb (code d) c then some 0 else elim rest [ none ↦ none | some i ↦ some (suc i) ]

-- What the rest of the text says comes first.
abbrev pub later_or : Option ℕ → Bool → Option ℕ
later_or (some i) here = some (suc i)
later_or none here = if here then some 0 else none

abbrev pub text_rfind : ℕ → String → Option ℕ
text_rfind c String.[] = none
text_rfind c (String.◌∷◌ d s) = later_or (text_rfind c s) (eqb (code d) c)

-- `s.split()`: the words between white space.
abbrev begins_word : String → Bool
begins_word String.[] = false
begins_word (String.◌∷◌ c s) = not (is_space (code c))

abbrev pub words : String → List String
words String.[] = []
words (String.◌∷◌ c s) =
    let rest = words s in
    if is_space (code c)
    then rest
    else if begins_word s
    then cons_first (String.◌∷◌ c String.[]) rest
    else String.◌∷◌ c String.[] ∷ rest

abbrev pub is_digit : ℕ → Bool
is_digit n = leb b'0' n && leb n b'9'

-- `s.isdigit()` of a text of ASCII characters
abbrev pub all_digits : String → Bool
all_digits String.[] = true
all_digits (String.◌∷◌ c s) = is_digit (code c) && all_digits s

abbrev pub text_isdigit : String → Bool
text_isdigit s = not (str_eq s "") && all_digits s

-- The digits of a literal, a single `_` allowed between two of them: the value so far, and whether
-- the character before was a digit.
abbrev digits_from : ℕ → Bool → String → Option ℕ
digits_from n after_digit String.[] = if after_digit then some n else none
digits_from n after_digit (String.◌∷◌ c s) =
    let next = digits_from (n * 10 + (code c - b'0')) true s in
    let under = digits_from n false s in
    if is_digit (code c) then next else if after_digit && eqb (code c) b'_' then under else none

abbrev negated : Option ℕ → Option ℤ
negated none = none
negated (some zero) = some (pos zero)
negated (some (suc n)) = some (negsuc n)

abbrev pub positive : Option ℕ → Option ℤ
positive none = none
positive (some n) = some (pos n)

abbrev signed : String → Option ℤ
signed String.[] = none
signed (String.◌∷◌ c s) =
    if eqb (code c) b'-'
    then negated (digits_from 0 false s)
    else if eqb (code c) b'+'
    then positive (digits_from 0 false s)
    else positive (digits_from 0 false (String.◌∷◌ c s))

-- `int(s)`; `none` is its ValueError.
unfoldable pub int_of : String → Option ℤ
int_of s = signed (strip s)

-- `s.splitlines()`; a carriage return before a line feed is part of that line's end.
abbrev pub is_line_end : ℕ → Bool
is_line_end n =
    (leb 10 n && leb n 13) || ((leb 28 n && leb n 30) || any (eqb n) (0x85 ∷ 0x2028 ∷ 0x2029 ∷ []))

abbrev begins_line_feed : String → Bool
begins_line_feed String.[] = false
begins_line_feed (String.◌∷◌ c s) = eqb (code c) 10

abbrev pub splitlines : String → List String
splitlines String.[] = []
splitlines (String.◌∷◌ c s) =
    let rest = splitlines s in
    if eqb (code c) 13 && begins_line_feed s
    then rest
    else if is_line_end (code c)
    then String.[] ∷ rest
    else cons_first (String.◌∷◌ c String.[]) rest

-- The value of a hexadecimal digit.
abbrev pub hex_digit : ℕ → Option ℕ
hex_digit n =
    if is_digit n
    then some (n - b'0')
    else if leb b'A' n && leb n b'F'
    then some (n - b'A' + 10)
    else if leb b'a' n && leb n b'f'
    then some (n - b'a' + 10)
    else none

abbrev pub hex_next : Option ℕ → (ℕ → Option ℕ) → Option ℕ → Option ℕ
hex_next (some d) digit other = digit d
hex_next none digit other = other

abbrev pub hex_from : ℕ → Bool → String → Option ℕ
hex_from n after_digit String.[] = if after_digit then some n else none
hex_from n after_digit (String.◌∷◌ c s) =
    let under = hex_from n false s in
    hex_next (hex_digit (code c)) (λ d. hex_from (n * 16 + d) true s)
      (if after_digit && eqb (code c) b'_' then under else none)

-- The digits after the optional `0x`, which an underscore may follow.
abbrev pub hex_prefixed : String → Option ℕ
hex_prefixed s =
    if text_starts s "0x" || text_starts s "0X"
    then hex_from 0 (text_starts (text_drop 2 s) "_") (text_drop 2 s)
    else hex_from 0 false s

abbrev pub hex_signed : String → Option ℤ
hex_signed String.[] = none
hex_signed (String.◌∷◌ c s) =
    if eqb (code c) b'-'
    then negated (hex_prefixed s)
    else if eqb (code c) b'+'
    then positive (hex_prefixed s)
    else positive (hex_prefixed (String.◌∷◌ c s))

-- `int(s, 16)`
unfoldable pub hex_int_of : String → Option ℤ
hex_int_of s = hex_signed (strip s)

-- A text without the character.
abbrev pub Lacks : ℕ → String → Type 0
Lacks c String.[] = Unit
Lacks c (String.◌∷◌ d s) = (eqb (code d) c ≡ false) × Lacks c s

abbrev pub lacks : ℕ → String → Bool
lacks c String.[] = true
lacks c (String.◌∷◌ d s) = if eqb (code d) c then false else lacks c s

pub Lacks-lacks : (c : ℕ) (s : String) → lacks c s ≡ true → Lacks c s
Lacks-lacks c String.[] h = tt
Lacks-lacks c (String.◌∷◌ d s) h = elim (Bool-cases (eqb (code d) c)) [
  | inl here ↦ absurd (truth (rw here at h))
  | inr other ↦ (other, Lacks-lacks c s (rw other at h))
]
  where
    truth : ¬ (false ≡ true)
    truth e = cc

Lacks-none : (c : ℕ) (s : String) → Lacks c s → text_rfind c s ≡ none
Lacks-none c String.[] h = refl
Lacks-none c (String.◌∷◌ d s) h = rw (Lacks-none c s h.1, h.0)

-- The last occurrence is the one after which the character is missing.
pub text_rfind_last :
    (c : ℕ) (front rest : String) (mark : Char)
    → eqb (code mark) c ≡ true
    → Lacks c rest
    → text_rfind c (text_append front (String.◌∷◌ mark rest)) ≡ some (text_length front)
text_rfind_last c String.[] rest mark m h = rw (Lacks-none c rest h, m)
text_rfind_last c (String.◌∷◌ d s) rest mark m h = rw (text_rfind_last c s rest mark m h)
