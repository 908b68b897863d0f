-- ===== src/Prelude/Text.antt =====
-- Texts walked character by character: Python's slices and tests on `str`.
use Prim.Native.Nat.{ℕ, zero, suc, ◌+◌, ◌-◌, ◌/◌, ◌%◌, min}
use Prim.Native.Char.{code}
use Prim.Native.String.{String}
use mathlib.Core.Path.{◌≡◌}
use mathlib.Core.Bool.{Bool, true, false, ◌&&◌, ◌||◌}
use mathlib.Core.List.{List, [], ◌∷◌}
use native.Mathlib.Omega.{arith}
use text.Mathlib.Text.{◌==◌ as str_eq}
use sentinel_linux.Prelude.Tests.{eqb, ltb, leb, if◌then◌else◌}

abbrev pub empty : String
empty = String.[]

-- `len(s)`
abbrev pub text_length : String → ℕ
text_length String.[] = 0
text_length (String.◌∷◌ c s) = suc (text_length s)

-- `s[:n]` and `s[n:]`
abbrev pub text_take : ℕ → String → String
text_take zero s = String.[]
text_take (suc n) String.[] = String.[]
text_take (suc n) (String.◌∷◌ c s) = String.◌∷◌ c (text_take n s)

abbrev pub text_drop : ℕ → String → String
text_drop zero s = s
text_drop (suc n) String.[] = String.[]
text_drop (suc n) (String.◌∷◌ c s) = text_drop n s

-- `s[-n:]` for a positive n
abbrev pub text_last : ℕ → String → String
text_last n s = text_drop (text_length s - n) s

-- s + t, by recursion on s
abbrev pub text_append : String → String → String
text_append String.[] t = t
text_append (String.◌∷◌ c s) t = String.◌∷◌ c (text_append s t)

-- `s.replace(c, t)` for one character of code `c`
abbrev pub text_replace : ℕ → String → String → String
text_replace c t String.[] = String.[]
text_replace c t (String.◌∷◌ d s) =
    let rest = text_replace c t s in
    if eqb (code d) c then text_append t rest else String.◌∷◌ d rest

-- `s.startswith(p)`
abbrev pub text_starts : String → String → Bool
text_starts s String.[] = true
text_starts String.[] (String.◌∷◌ d p) = false
text_starts (String.◌∷◌ c s) (String.◌∷◌ d p) = eqb (code c) (code d) && text_starts s p

-- `p in s`
abbrev pub text_contains : String → String → Bool
text_contains String.[] p = text_starts String.[] p
text_contains (String.◌∷◌ c s) p = text_starts (String.◌∷◌ c s) p || text_contains s p

-- `s.endswith(p)`
abbrev pub text_ends : String → String → Bool
text_ends s p = leb (text_length p) (text_length s) && str_eq (text_last (text_length p) s) p

-- `s.split(c)` for a one-character separator with code `sep`: the field read so far in front.
abbrev pub cons_first : String → List String → List String
cons_first c [] = c ∷ []
cons_first c (f ∷ fs) = text_append c f ∷ fs

abbrev pub text_split : ℕ → String → List String
text_split sep String.[] = String.[] ∷ []
text_split sep (String.◌∷◌ c s) =
    let rest = text_split sep s in
    if eqb (code c) sep then String.[] ∷ rest else cons_first (String.◌∷◌ c String.[]) rest

-- `sep.join(parts)`
abbrev pub text_join : String → List String → String
text_join sep [] = String.[]
text_join sep (p ∷ []) = p
text_join sep (p ∷ q ∷ ps) = text_append p (text_append sep (text_join sep (q ∷ ps)))

pub text_length-take : (n : ℕ) (s : String) → text_length (text_take n s) ≡ min n (text_length s)
text_length-take zero s = omega arith
text_length-take (suc n) String.[] = omega arith
text_length-take (suc n) (String.◌∷◌ c s) = omega (arith, text_length-take n s)

pub text_length-drop : (n : ℕ) (s : String) → text_length (text_drop n s) ≡ text_length s - n
text_length-drop zero s = omega arith
text_length-drop (suc n) String.[] = omega arith
text_length-drop (suc n) (String.◌∷◌ c s) = omega (arith, text_length-drop n s)

pub text_length-append :
    (s t : String) → text_length (text_append s t) ≡ text_length s + text_length t
text_length-append String.[] t = omega arith
text_length-append (String.◌∷◌ c s) t = omega (arith, text_length-append s t)

-- `str(n)` of a natural number: as many digits as `n + 1` always suffice, since n < 10 ^ (n + 1).
unfoldable decimal_of : ℕ → ℕ → String
decimal_of zero n = String.[]
decimal_of (suc fuel) n =
    let front = decimal_of fuel (n / 10) in
    text_append (if ltb n 10 then String.[] else front)
      (text_take 1 (text_drop (n % 10) "0123456789"))

unfoldable pub decimal : ℕ → String
unfolding decimal_of
decimal n = decimal_of (suc n) n
