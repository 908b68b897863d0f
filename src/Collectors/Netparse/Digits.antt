-- ===== src/Collectors/Netparse/Digits.antt =====
-- The hexadecimal digits that the kernel prints in /proc/net/tcp, as the parser of netparse.py reads them.
use Prim.Native.Char.{Char, code}
use mathlib.Core.Path.{subst}
use sentinel_linux.Prelude.{
  Bool-cases, inl, inr, ℕ, zero, suc, ◌+◌, ◌<◌, ◌≡◌, refl, Bool, true, false, ◌&&◌, not, Option,
  none, some, List, [], ◌∷◌, if◌then◌else◌, eqb, arith, All,
}
use sentinel_linux.Prelude.Words.{is_space, hex_digit}
use sentinel_linux.Collectors.Netparse.{is_blank}

-- The digits of `%X`.
abbrev hex_chars : List Char
hex_chars =
    "0" ∷ "1" ∷ "2" ∷ "3" ∷ "4" ∷ "5" ∷ "6" ∷ "7" ∷ "8" ∷ "9" ∷ "A" ∷ "B" ∷ "C" ∷ "D" ∷ "E" ∷ "F"
    ∷ []

char_at : ℕ → List Char → Char
char_at n [] = "0"
char_at zero (c ∷ cs) = c
char_at (suc n) (c ∷ cs) = char_at n cs

pub hex_char : ℕ → Char
unfolding char_at
hex_char h = char_at h hex_chars

abbrev pub every : List Bool → Bool
every [] = true
every (b ∷ bs) = b && every bs

-- What the parsers ask of a digit.
abbrev reads_as : Option ℕ → ℕ → Bool
reads_as none h = false
reads_as (some d) h = eqb d h

abbrev pub checks : ℕ → List Bool
checks h =
    let n = code (hex_char h) in
    not (is_space n)
    ∷ not (is_blank n)
    ∷ not (eqb n b':')
    ∷ not (eqb n b'-')
    ∷ not (eqb n b'+')
    ∷ not (eqb n b'x')
    ∷ not (eqb n b'X')
    ∷ reads_as (hex_digit n) h
    ∷ []

digit_ok : ℕ → Bool
unfolding hex_char
digit_ok h = every (checks h)

-- The first digit of `count` many, from `h` on, that fails a check would make this false.
digits_from : ℕ → ℕ → Bool
digits_from h zero = true
digits_from h (suc count) = if digit_ok h then digits_from (suc h) count else false

digits_from-ok : (count h k : ℕ) → digits_from h count ≡ true → k < count → digit_ok (h + k) ≡ true
unfolding digits_from
digits_from-ok zero h k all lt = absurd (omega arith)
digits_from-ok (suc count) h zero all lt = elim (Bool-cases (digit_ok h)) [
  | inl ok ↦ let e : h ≡ h + 0 = omega arith in subst (λ n. digit_ok n ≡ true) e ok
  | inr bad ↦ let no : false ≡ true = rw bad at all in cc
]
digits_from-ok (suc count) h (suc i) all lt = elim (Bool-cases (digit_ok h)) [
  | inl ok ↦
      let e : suc h + i ≡ h + suc i = omega arith in
      subst (λ n. digit_ok n ≡ true) e (digits_from-ok count (suc h) i (rw ok at all) (omega arith))
  | inr bad ↦ let no : false ≡ true = rw bad at all in cc
]

digits_table : digits_from 0 16 ≡ true
unfolding digits_from digit_ok
digits_table = refl

pub record Digit (h : ℕ) : Type 0 where
  pub no_space : is_space (code (hex_char h)) ≡ false
  pub no_blank : is_blank (code (hex_char h)) ≡ false
  pub no_colon : eqb (code (hex_char h)) b':' ≡ false
  pub no_minus : eqb (code (hex_char h)) b'-' ≡ false
  pub no_plus : eqb (code (hex_char h)) b'+' ≡ false
  pub no_x : eqb (code (hex_char h)) b'x' ≡ false
  pub no_capital_x : eqb (code (hex_char h)) b'X' ≡ false
  pub value : hex_digit (code (hex_char h)) ≡ some h

and_left : (a b : Bool) → (a && b) ≡ true → (a ≡ true) × (b ≡ true)
and_left true b e = (refl, e)
and_left false b e = cc

not-false : (a : Bool) → not a ≡ true → a ≡ false
not-false true e = cc
not-false false e = refl

reads_value : (o : Option ℕ) (h : ℕ) → reads_as o h ≡ true → o ≡ some h
reads_value none h e = cc
reads_value (some d) h e = ground arith

every-All : (bs : List Bool) → every bs ≡ true → All (λ b. b ≡ true) bs
every-All [] e = tt
every-All (b ∷ bs) e = let p = and_left b (every bs) e in (p.0, every-All bs p.1)

checks_hold : (h : ℕ) → h < 16 → All (λ b. b ≡ true) (checks h)
unfolding digit_ok
checks_hold h lt =
    let e : 0 + h ≡ h = omega arith in
    every-All (checks h) (subst (λ n. digit_ok n ≡ true) e (digits_from-ok 16 0 h digits_table lt))

pub digit_lem : (h : ℕ) → h < 16 → Digit h
digit_lem h lt =
    let n = code (hex_char h) in
    let c = checks_hold h lt in
    record {
      no_space = not-false (is_space n) c.0;
      no_blank = not-false (is_blank n) c.1.0;
      no_colon = not-false (eqb n b':') c.1.1.0;
      no_minus = not-false (eqb n b'-') c.1.1.1.0;
      no_plus = not-false (eqb n b'+') c.1.1.1.1.0;
      no_x = not-false (eqb n b'x') c.1.1.1.1.1.0;
      no_capital_x = not-false (eqb n b'X') c.1.1.1.1.1.1.0;
      value = reads_value (hex_digit n) h c.1.1.1.1.1.1.1.0;
    }
