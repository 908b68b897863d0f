-- ===== src/Api/Security/Authorization.antt =====
-- Who passes `require_api_key` of src/sentinel/api/security.py.
use text.Mathlib.Text.{◌==◌ as str_eq}
use text.Mathlib.TextEquality.{eq_iff, Char-path}
use Prim.Native.Char.{Char, code}
use sentinel_linux.Prelude.{
  ◌≡◌, refl, ap, sym, true, false, Option, none, some, eqb, ◌↔◌, ◌⊎◌, String, arith, Bool-cases,
  inl, inr,
}
use sentinel_linux.Prelude.Text.{text_append}
use sentinel_linux.Api.Security.{
  Request, partition, is_bearer, token_of, header_text, bearer_token, passed, check_token,
  check_key, require_api_key,
}

-- No space in the text.
abbrev pub IsWord : String → Type 0
IsWord String.[] = Unit
IsWord (String.◌∷◌ c s) = (eqb (code c) 0x20 ≡ false) × IsWord s

partition-word :
    (scheme token : String)
    → IsWord scheme
    → partition (text_append scheme (text_append " " token)) ≡ (scheme, token)
partition-word String.[] token w = refl
partition-word (String.◌∷◌ c s) token w = rw (w.0, partition-word s token w.1) refl

-- The text is put together again from the parts, if there was a space.
partition_parts :
    (text : String)
    → IsWord (partition text).0
      × ((text ≡ text_append (partition text).0 (text_append " " (partition text).1))
          ⊎ ((partition text).1 ≡ ""))
partition_parts String.[] = (tt, inr refl)
partition_parts (String.◌∷◌ c s) = elim (Bool-cases (eqb (code c) 0x20)) [
  | inl space ↦ rw space (tt, inl (ap (λ d. String.◌∷◌ d s) (is_space c space)))
  | inr other ↦
      let r = partition_parts s in
      rw other (
        (other, r.0),
        elim r.1 [ inl whole ↦ inl (ap (String.◌∷◌ c) whole) | inr nothing ↦ inr nothing ],
      )
]
  where
    is_space : (c : Char) → eqb (code c) 0x20 ≡ true → ◌≡◌ {A = Char} c " "
    is_space c h = Char-path c " " (ground (arith, h))

-- A request is let through exactly when a key is configured and the header is a bearer scheme, a
-- space and that key, which is not empty.
pub authorized_iff :
    (api_key : Option String) (request : Request)
    → (require_api_key api_key request ≡ passed) ↔ (
        (scheme : String) × (token : String) × (api_key ≡ some token)
        × (header_text request.authorization ≡ text_append scheme (text_append " " token))
        × IsWord scheme
        × (is_bearer scheme ≡ true)
        × (str_eq token "" ≡ false))
unfolding require_api_key bearer_token
authorized_iff api_key request = (to api_key, λ h. from h)
  where
    go :
        (configured front back : String)
        → IsWord front
        → (header_text request.authorization ≡ text_append front (text_append " " back))
          ⊎ (back ≡ "")
        → check_token configured (token_of (front, back)) ≡ passed
        → (scheme : String) × (token : String) × (some configured ≡ some token)
          × (header_text request.authorization ≡ text_append scheme (text_append " " token))
          × IsWord scheme
          × (is_bearer scheme ≡ true)
          × (str_eq token "" ≡ false)
    go configured front back word parts h = elim (Bool-cases (is_bearer front)) [
      | inr other ↦ cc
      | inl bearer ↦ elim (Bool-cases (str_eq back "")) [
        | inl nothing ↦ cc
        | inr full ↦ elim parts [
          | inr nothing ↦ cc (full, (eq_iff back "").1 nothing)
          | inl header ↦ elim (Bool-cases (str_eq back configured)) [
            | inr wrong ↦ cc
            | inl right ↦ (
              front,
              back,
              ap some (sym ((eq_iff back configured).0 right)),
              header,
              word,
              bearer,
              full,
            )
          ]
        ]
      ]
    ]

    to :
        (api_key : Option String)
        → check_key api_key (token_of (partition (header_text request.authorization))) ≡ passed
        → (scheme : String) × (token : String) × (api_key ≡ some token)
          × (header_text request.authorization ≡ text_append scheme (text_append " " token))
          × IsWord scheme
          × (is_bearer scheme ≡ true)
          × (str_eq token "" ≡ false)
    to none h = cc
    to (some configured) h =
        let (front, back) = partition (header_text request.authorization) in
        let parts = partition_parts (header_text request.authorization) in
        go configured front back parts.0 parts.1 h

    from :
        ((scheme : String) × (token : String) × (api_key ≡ some token)
          × (header_text request.authorization ≡ text_append scheme (text_append " " token))
          × IsWord scheme
          × (is_bearer scheme ≡ true)
          × (str_eq token "" ≡ false))
        → check_key api_key (token_of (partition (header_text request.authorization))) ≡ passed
    from (scheme, token, key, header, word, bearer, full) =
        rw
          (key, header, partition-word scheme token word, bearer, full, (eq_iff token token).1 refl)
          refl
