-- ===== src/Runtime/Paths/Prefixes.antt =====
-- What `_literal_prefix` of src/sentinel/runtime.py returns.
use Prim.Native.Char.{Char}
use sentinel_linux.Prelude.{
  ◌≡◌, refl, sym, ap, ◌∙◌, true, false, ◌⊎◌, inl, inr, Bool-cases, String, arith,
}
use sentinel_linux.Prelude.Text.{text_append, text_take, text_length, text_length-append, empty}
use sentinel_linux.Runtime.Paths.{
  regex_meta, quantifier, quantified, append_char, pop, prefix_from, literal_prefix,
}

-- No character of the text has a meaning in a regex.
abbrev pub IsLiteral : String → Type 0
IsLiteral String.[] = Unit
IsLiteral (String.◌∷◌ c s) = (regex_meta c ≡ false) × IsLiteral s

text_append_assoc :
    (a b c : String) → text_append (text_append a b) c ≡ text_append a (text_append b c)
text_append_assoc String.[] b c = refl
text_append_assoc (String.◌∷◌ x a) b c = ap (String.◌∷◌ x) (text_append_assoc a b c)

IsLiteral-append_char :
    (p : String) (c : Char) → IsLiteral p → regex_meta c ≡ false → IsLiteral (append_char p c)
IsLiteral-append_char String.[] c l h = (h, tt)
IsLiteral-append_char (String.◌∷◌ x p) c l h = (l.0, IsLiteral-append_char p c l.1 h)

take-append_char : (p : String) (c : Char) → text_take (text_length p) (append_char p c) ≡ p
take-append_char String.[] c = refl
take-append_char (String.◌∷◌ x p) c = ap (String.◌∷◌ x) (take-append_char p c)

pop-append_char : (p : String) (c : Char) → pop (append_char p c) ≡ p
pop-append_char p c =
    ap (λ n. text_take n (append_char p c))
      (omega (arith, text_length-append p (String.◌∷◌ c String.[])))
    ∙ take-append_char p c

-- A quantifier is a character of `_REGEX_META`.
quantifier-regex_meta : (c : Char) → quantifier c ≡ true → regex_meta c ≡ true
quantifier-regex_meta c h = ground arith

plain_not_quantifier : (c : Char) → regex_meta c ≡ false → quantifier c ≡ false
plain_not_quantifier c h = elim (Bool-cases (quantifier c)) [
  | inl q ↦ cc (h, quantifier-regex_meta c q)
  | inr n ↦ n
]

-- The text is `p` and a rest, `p` is literal, and no quantifier follows a `p` that is not empty.
abbrev pub IsLiteralPrefix : String → String → Type 0
IsLiteralPrefix p text =
    (rest : String) × (text ≡ text_append p rest)
    × IsLiteral p
    × ((p ≡ empty) ⊎ (quantified rest ≡ false))

-- `_literal_prefix` returns a text that the pattern starts with, in which no character has a meaning
-- in a regex and whose last character no quantifier makes optional.
pub literal_prefix-IsLiteralPrefix :
    (pattern : String) → IsLiteralPrefix (literal_prefix pattern) pattern
unfolding literal_prefix prefix_from
literal_prefix-IsLiteralPrefix pattern = go empty pattern tt (inl refl)
  where
    go :
        (prefix s : String)
        → IsLiteral prefix
        → (prefix ≡ empty) ⊎ (quantified s ≡ false)
        → IsLiteralPrefix (prefix_from prefix s) (text_append prefix s)
    go prefix String.[] l q = (String.[], refl, l, inr refl)
    go prefix (String.◌∷◌ c s) l q = elim (Bool-cases (regex_meta c)) [
      | inl meta ↦ elim (Bool-cases (quantifier c)) [
        | inl quant ↦ elim q [
          | inl none_yet ↦ rw (meta, quant, none_yet) (String.◌∷◌ c s, refl, tt, inl refl)
          | inr plain ↦ cc
        ]
        | inr plain ↦ rw (meta, plain) (String.◌∷◌ c s, refl, l, inr plain)
      ]
      | inr literal ↦ elim (Bool-cases (quantified s)) [
        | inl optional ↦
            rw (literal, optional, pop-append_char prefix c)
              (String.◌∷◌ c s, refl, l, inr (plain_not_quantifier c literal))
        | inr kept ↦
            let r =
              go (append_char prefix c) s (IsLiteral-append_char prefix c l literal) (inr kept) in
            rw (literal, kept)
              (r.0, sym (text_append_assoc prefix (String.◌∷◌ c String.[]) s) ∙ r.1, r.2, r.3)
      ]
    ]
