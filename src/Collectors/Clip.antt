-- ===== src/Collectors/Clip.antt =====
-- `clip` of src/sentinel/collectors/base.py.
use sentinel_linux.Prelude.{
  ℕ, zero, suc, ◌+◌, ◌-◌, ◌/◌, ◌≤◌, ◌≡◌, refl, sym, ap, ◌∙◌, true, false, leb, max, if◌then◌else◌,
  String, Bool-cases, inl, inr, arith,
}
use sentinel_linux.Prelude.Text.{
  text_length, text_take, text_drop, text_last, text_append, text_length-take, text_length-drop,
  text_length-append,
}

abbrev pub clip_marker : String
clip_marker = " ... "

-- A cut text: the first `keep - tail` characters, the marker, and the last `tail`.
abbrev pub clipped : String → ℕ → ℕ → String
clipped text front tail =
    text_append (text_take front text)
      (text_append clip_marker (if leb 1 tail then text_last tail text else ""))

unfoldable pub clip : String → ℕ → String
clip text limit =
    if leb (text_length text) limit
    then text
    else (let keep = limit - text_length clip_marker in
        let tail = keep / 2 in clipped text (keep - tail) tail)

-- The end of the text that is kept.
abbrev end_of : String → ℕ → String
end_of text tail = if leb 1 tail then text_last tail text else ""

length-end_of :
    (text : String) (tail : ℕ) → tail ≤ text_length text → text_length (end_of text tail) ≡ tail
length-end_of text tail le = elim (Bool-cases (leb 1 tail)) [
  | inl some_kept ↦ rw some_kept (omega (arith, text_length-drop (text_length text - tail) text))
  | inr none_kept ↦ rw none_kept (ground arith)
]

length-clipped :
    (text : String) (front tail : ℕ)
    → front + tail ≤ text_length text
    → text_length (clipped text front tail) ≡ front + 5 + tail
length-clipped text front tail le = omega (
  arith,
  text_length-append (text_take front text) (text_append clip_marker (end_of text tail)),
  text_length-append clip_marker (end_of text tail),
  text_length-take front text,
  length-end_of text tail (omega (arith, le)),
)

-- A text that is too long is cut to the limit exactly, or to the marker where the limit is shorter
-- than that; any other text stays as it is.
pub clip_length :
    (text : String) (limit : ℕ)
    → text_length (clip text limit)
      ≡ (if leb (text_length text) limit then text_length text else max limit 5)
unfolding clip
clip_length text limit = elim (Bool-cases (leb (text_length text) limit)) [
  | inl short ↦ rw short refl
  | inr long ↦
      let keep = limit - 5 in
      let tail = keep / 2 in
      rw long (length-clipped text (keep - tail) tail (ground (arith, long)) ∙ ground (arith, long))
]

pub take-append :
    (front rest : String) (n : ℕ)
    → n ≡ text_length front
    → text_take n (text_append front rest) ≡ front
take-append front rest n e = rw e (go front)
  where
    go : (s : String) → text_take (text_length s) (text_append s rest) ≡ s
    go String.[] = refl
    go (String.◌∷◌ c s) = ap (String.◌∷◌ c) (go s)

pub drop-append :
    (front rest : String) (n : ℕ)
    → n ≡ text_length front
    → text_drop n (text_append front rest) ≡ rest
drop-append front rest n e = rw e (go front)
  where
    go : (s : String) → text_drop (text_length s) (text_append s rest) ≡ rest
    go String.[] = refl
    go (String.◌∷◌ c s) = go s

pub drop_add : (n m : ℕ) (s : String) → text_drop (n + m) s ≡ text_drop m (text_drop n s)
drop_add zero m s = let e : 0 + m ≡ m = omega arith in ap (λ k. text_drop k s) e
drop_add (suc n) m String.[] = empty_drop (suc n + m) ∙ sym (empty_drop m)
  where
    empty_drop : (k : ℕ) → text_drop k String.[] ≡ String.[]
    empty_drop zero = refl
    empty_drop (suc k) = refl
drop_add (suc n) m (String.◌∷◌ c s) =
    let e : suc n + m ≡ suc (n + m) = omega arith in
    ap (λ k. text_drop k (String.◌∷◌ c s)) e ∙ drop_add n m s

take-clipped :
    (text : String) (front tail : ℕ)
    → front ≤ text_length text
    → text_take front (clipped text front tail) ≡ text_take front text
take-clipped text front tail le =
    take-append (text_take front text) (text_append clip_marker (end_of text tail)) front
      (omega (arith, text_length-take front text))

drop-clipped :
    (text : String) (front tail : ℕ)
    → front ≤ text_length text
    → 1 ≤ tail
    → text_drop (front + 5) (clipped text front tail) ≡ text_last tail text
drop-clipped text front tail le some_kept =
    drop_add front 5 (clipped text front tail)
    ∙ ap (text_drop 5) (
        drop-append (text_take front text) (text_append clip_marker (end_of text tail)) front
          (omega (arith, text_length-take front text)))
    ∙ drop-append clip_marker (end_of text tail) 5 refl
    ∙ rw (kept tail some_kept) refl
  where
    kept : (tail : ℕ) → 1 ≤ tail → leb 1 tail ≡ true
    kept tail h = ground arith

-- Both ends of a text that is too long survive: of the characters that the limit leaves beside the
-- marker, one half, or one more, is the start of the text, and the other half is its end.
pub clip_ends :
    (text : String) (limit : ℕ)
    → limit + 1 ≤ text_length text
    → 7 ≤ limit
    → (front : ℕ) × (tail : ℕ) × (front + 5 + tail ≡ limit)
      × (tail ≤ front)
      × (front ≤ tail + 1)
      × (text_take front (clip text limit) ≡ text_take front text)
      × (text_drop (front + 5) (clip text limit) ≡ text_last tail text)
unfolding clip
clip_ends text limit long enough =
    let keep = limit - 5 in
    let tail = keep / 2 in
    let front = keep - tail in
    (
      front,
      tail,
      omega (arith, enough),
      omega (arith, enough),
      omega (arith, enough),
      rw (over (text_length text) limit long) (take-clipped text front tail (omega (arith, long))),
      rw (over (text_length text) limit long)
          (drop-clipped text front tail (omega (arith, long)) (omega (arith, enough))),
    )
  where
    over : (n limit : ℕ) → limit + 1 ≤ n → leb n limit ≡ false
    over n limit h = ground arith
