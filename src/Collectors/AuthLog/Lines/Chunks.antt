-- ===== src/Collectors/AuthLog/Lines/Chunks.antt =====
-- Whatever the chunks, the lines that are not too long come out as if the whole text were split once.
use mathlib.Core.Path.{subst}
use sentinel_linux.Prelude.{
  ℕ, ◌≤◌, ◌<◌, ◌≡◌, refl, sym, ap, ◌∙◌, Bool, true, false, not, List, [], ◌∷◌, ◌++◌, length, eqb,
  ltb, keep, All, inl, inr, Bool-cases, arith, append_assoc, append-nil, keep-append, All-append,
  length-append, ltb→lt,
}
use sentinel_linux.Collectors.AuthLog.Lines.{
  max_line_len, cons_byte, split_lines, Pending, split, split_pending, keep_rest,
}

-- A piece of a line in front of what is split.
abbrev pub prepend : List ℕ → List (List ℕ) × List ℕ → List (List ℕ) × List ℕ
prepend p ([], rest) = ([], p ++ rest)
prepend p (l ∷ ls, rest) = ((p ++ l) ∷ ls, rest)

abbrev pub NoNewline : List ℕ → Type 0
NoNewline bytes = All (λ b. eqb b 10 ≡ false) bytes

prepend_cons :
    (b : ℕ) (p : List ℕ) (r : List (List ℕ) × List ℕ)
    → cons_byte b (prepend p r) ≡ prepend (b ∷ p) r
prepend_cons b p ([], rest) = refl
prepend_cons b p (l ∷ ls, rest) = refl

pub prepend_nil : (r : List (List ℕ) × List ℕ) → r ≡ prepend [] r
prepend_nil ([], rest) = refl
prepend_nil (l ∷ ls, rest) = refl

pub split_lines-append :
    (p chunk : List ℕ) → NoNewline p → split_lines (p ++ chunk) ≡ prepend p (split_lines chunk)
unfolding split_lines
split_lines-append [] chunk h = prepend_nil (split_lines chunk)
split_lines-append (b ∷ p) chunk h =
    rw (h.0, split_lines-append p chunk h.1) (prepend_cons b p (split_lines chunk))

-- A text in two parts: the second goes on where the first ended.
abbrev pub continue : List (List ℕ) × List ℕ → List ℕ → List (List ℕ) × List ℕ
continue r more = let q = prepend r.1 (split_lines more) in (r.0 ++ q.0, q.1)

continue_cons :
    (b : ℕ) (r : List (List ℕ) × List ℕ) (more : List ℕ)
    → cons_byte b (continue r more) ≡ continue (cons_byte b r) more
continue_cons b ([], rest) more = prepend_cons b rest (split_lines more)
continue_cons b (l ∷ ls, rest) more = refl

pub split_lines-continue : (xs ys : List ℕ) → split_lines (xs ++ ys) ≡ continue (split_lines xs) ys
unfolding split_lines
split_lines-continue [] ys = prepend_nil (split_lines ys)
split_lines-continue (x ∷ xs) ys = elim (Bool-cases (eqb x 10)) [
  | inl newline ↦ rw newline (ap (λ r. ([] ∷ r.0, r.1)) (split_lines-continue xs ys))
  | inr other ↦
      rw other (ap (cons_byte x) (split_lines-continue xs ys) ∙ continue_cons x (split_lines xs) ys)
]

rest-NoNewline : (bytes : List ℕ) → NoNewline (split_lines bytes).1
unfolding split_lines
rest-NoNewline [] = tt
rest-NoNewline (b ∷ bytes) = elim (Bool-cases (eqb b 10)) [
  | inl newline ↦ rw newline (rest-NoNewline bytes)
  | inr other ↦ rw other (go other (split_lines bytes) (rest-NoNewline bytes))
]
  where
    go :
        eqb b 10 ≡ false
        → (r : List (List ℕ) × List ℕ) → NoNewline r.1
        → NoNewline (cons_byte b r).1
    go e ([], rest) h = (e, h)
    go e (l ∷ ls, rest) h = h

abbrev pub is_short : List ℕ → Bool
is_short l = not (ltb max_line_len (length l))

-- What the state says of the line that has begun, `p`: it is kept, or it was too long and its
-- remaining bytes are dropped.
pub data Stands (p : List ℕ) (st : Pending) : Type 0 where
  kept : st.discarding ≡ false → st.buf ≡ p → NoNewline p → length p ≤ max_line_len → Stands p st
  dropped :
      st.discarding ≡ true
      → NoNewline st.buf
      → length st.buf ≤ max_line_len
      → NoNewline p
      → max_line_len < length p
      → Stands p st

within : (n : ℕ) → ltb max_line_len n ≡ false → n ≤ max_line_len
within n h = ground (arith, h)

kept_rest :
    (rest : List ℕ) (skipped : ℕ) → NoNewline rest → Stands rest (keep_rest false rest skipped)
kept_rest rest skipped h = elim (Bool-cases (ltb max_line_len (length rest))) [
  | inl long ↦ rw long (dropped refl tt (omega arith) h (ltb→lt max_line_len (length rest) long))
  | inr short ↦ rw short (kept refl refl h (within (length rest) short))
]

dropped_rest :
    (p rest : List ℕ) (skipped : ℕ)
    → NoNewline p
    → max_line_len < length p
    → NoNewline rest
    → Stands p (keep_rest true rest skipped)
dropped_rest p rest skipped hp long h = elim (Bool-cases (ltb max_line_len (length rest))) [
  | inl over ↦ rw over (dropped refl tt (omega arith) hp long)
  | inr short ↦ rw short (dropped refl h (within (length rest) short) hp long)
]

NoNewline-append : (p q : List ℕ) → NoNewline p → NoNewline q → NoNewline (p ++ q)
NoNewline-append = All-append (λ b. eqb b 10 ≡ false)

-- What one chunk does when the line that has begun is kept.
step_kept :
    (p : List ℕ) (r : List (List ℕ) × List ℕ) (skipped : ℕ)
    → NoNewline p
    → NoNewline r.1
    → let o = split_pending (prepend p r) false skipped in
      (keep is_short o.1 ≡ keep is_short (prepend p r).0) × Stands (prepend p r).1 o.0
step_kept p ([], rest) skipped hp hr =
    (refl, kept_rest (p ++ rest) skipped (NoNewline-append p rest hp hr))
step_kept p (l ∷ ls, rest) skipped hp hr = (refl, kept_rest rest skipped hr)

long_line : (p l : List ℕ) → max_line_len < length p → is_short (p ++ l) ≡ false
long_line p l h = rw (over (length (p ++ l)) (omega (arith, length-append p l, h))) refl
  where
    over : (n : ℕ) → max_line_len < n → ltb max_line_len n ≡ true
    over n e = ground arith

-- And when its bytes are dropped, those of `q` since the last drop.
step_dropped :
    (p q : List ℕ) (r : List (List ℕ) × List ℕ) (skipped : ℕ)
    → NoNewline p
    → max_line_len < length p
    → NoNewline q
    → NoNewline r.1
    → let o = split_pending (prepend q r) true skipped in
      (keep is_short o.1 ≡ keep is_short (prepend p r).0) × Stands (prepend p r).1 o.0
step_dropped p q ([], rest) skipped hp long hq hr = (
  refl,
  dropped_rest (p ++ rest) (q ++ rest) skipped (NoNewline-append p rest hp hr)
      (omega (arith, length-append p rest, long)) (NoNewline-append q rest hq hr),
)
step_dropped p q (l ∷ ls, rest) skipped hp long hq hr =
    (rw (long_line p l long) refl, kept_rest rest skipped hr)

pub split-Stands :
    (p chunk : List ℕ) (st : Pending)
    → Stands p st
    → let o = split chunk st in
      let r = prepend p (split_lines chunk) in
      (keep is_short o.1 ≡ keep is_short r.0) × Stands r.1 o.0
unfolding split
split-Stands p chunk st (kept d b hp le) =
    rw (d, b, split_lines-append p chunk hp)
      (step_kept p (split_lines chunk) st.skipped hp (rest-NoNewline chunk))
split-Stands p chunk st (dropped d hb lb hp long) =
    rw (d, split_lines-append st.buf chunk hb)
      (step_dropped p st.buf (split_lines chunk) st.skipped hp long hb (rest-NoNewline chunk))

-- The chunks of a file, one poll after the other.
unfoldable pub feed : List (List ℕ) → Pending → Pending × List (List ℕ)
unfolding split
feed [] st = (st, [])
feed (chunk ∷ chunks) st =
    let o = split chunk st in let rest = feed chunks o.0 in (rest.0, o.1 ++ rest.1)

abbrev pub joined : List (List ℕ) → List ℕ
joined [] = []
joined (chunk ∷ chunks) = chunk ++ joined chunks

prepend-prepend :
    (p q : List ℕ) (r : List (List ℕ) × List ℕ) → prepend p (prepend q r) ≡ prepend (p ++ q) r
prepend-prepend p q ([], rest) = ap (λ t. ([], t)) (sym (append_assoc p q rest))
prepend-prepend p q (l ∷ ls, rest) = ap (λ t. (t ∷ ls, rest)) (sym (append_assoc p q l))

prepend-continue :
    (p : List ℕ) (r : List (List ℕ) × List ℕ) (more : List ℕ)
    → prepend p (continue r more) ≡ continue (prepend p r) more
prepend-continue p ([], rest) more = prepend-prepend p rest (split_lines more)
prepend-continue p (l ∷ ls, rest) more = refl

nothing_read : (p : List ℕ) (st : Pending) → Stands p st → Stands (p ++ []) st
nothing_read p st h = subst (λ q. Stands q st) (sym (append-nil p)) h

feed_lem :
    (p : List ℕ) (chunks : List (List ℕ)) (st : Pending)
    → Stands p st
    → let o = feed chunks st in
      let r = prepend p (split_lines (joined chunks)) in
      (keep is_short o.1 ≡ keep is_short r.0) × Stands r.1 o.0
unfolding feed split_lines
feed_lem p [] st h = (refl, nothing_read p st h)
feed_lem p (chunk ∷ chunks) st h =
    let more = joined chunks in
    let r = prepend p (split_lines chunk) in
    let first = split-Stands p chunk st h in
    let rest = feed_lem r.1 chunks (split chunk st).0 first.1 in
    let whole : continue r more ≡ prepend p (split_lines (chunk ++ more)) = sym (
      ap (prepend p) (split_lines-continue chunk more)
      ∙ prepend-continue p (split_lines chunk) more) in
    subst
      (λ (t : List (List ℕ) × List ℕ).
        (keep is_short (feed (chunk ∷ chunks) st).1 ≡ keep is_short t.0)
        × Stands t.1 (feed (chunk ∷ chunks) st).0)
      whole
      (
        keep-append is_short (split chunk st).1 (feed chunks (split chunk st).0).1
            ∙ ap (λ ls. ls ++ keep is_short (feed chunks (split chunk st).0).1) first.0
            ∙ ap (◌++◌ (keep is_short r.0)) rest.0
            ∙ sym (keep-append is_short r.0 (prepend r.1 (split_lines more)).0),
        rest.1,
      )

abbrev pub start : Pending
start = record { buf = []; discarding = false; skipped = 0 }

-- Whatever the chunks in which a file is read, the lines of at most 8192 bytes that come out are those
-- of the whole text, in order and each once.
pub feed-split_lines :
    (chunks : List (List ℕ))
    → keep is_short (feed chunks start).1 ≡ keep is_short (split_lines (joined chunks)).0
feed-split_lines chunks =
    (feed_lem [] chunks start (kept refl refl tt (omega arith))).0
    ∙ ap (λ (r : List (List ℕ) × List ℕ). keep is_short r.0)
        (sym (prepend_nil (split_lines (joined chunks))))

Stands-bounded : (p : List ℕ) (st : Pending) → Stands p st → length st.buf ≤ max_line_len
Stands-bounded p st (kept d b h le) = omega (arith, ap length b, le)
Stands-bounded p st (dropped d h le hp long) = le

-- The bytes held back never exceed the longest line.
pub feed-bounded : (chunks : List (List ℕ)) → length (feed chunks start).0.buf ≤ max_line_len
feed-bounded chunks =
    Stands-bounded _ (feed chunks start).0
      (feed_lem [] chunks start (kept refl refl tt (omega arith))).1
