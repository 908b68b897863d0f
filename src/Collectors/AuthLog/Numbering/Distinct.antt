-- ===== src/Collectors/AuthLog/Numbering/Distinct.antt =====
-- The records of a run of lines of one second are told apart, whichever lines repeat.
use mathlib.Core.Path.{subst}
use sentinel_linux.Prelude.{
  ℕ, zero, suc, ◌+◌, ◌≤◌, ◌<◌, ◌≡◌, refl, sym, ap, ◌∙◌, List, [], ◌∷◌, ◌++◌, map, length, All,
  All-append, All-imp, if◌then◌else◌, eqb, inl, inr, Bool-cases, arith,
}
use text.Mathlib.TextEquality.{eq_iff}
use sentinel_linux.Prelude.Eq.{◌==◌}
use sentinel_linux.Dict.{get, set}
use sentinel_linux.Dict.Laws.{get-set}
use sentinel_linux.RawEvents.{RawAuthEvent}
use sentinel_linux.Collectors.AuthLog.Records.{copies}
use sentinel_linux.Collectors.AuthLog.Numbering.{
  AuthKey, auth_key, same_auth_iff, key_of, Numbering, number, number_from, offset, count_or_zero,
  at_second,
}

-- What the key has seen so far.
abbrev pub seen_of : Numbering → AuthKey → ℕ
seen_of st k = count_or_zero (get k st.seen)

length-copies : (count n : ℕ) (f : RawAuthEvent) → length (copies count n f) ≡ count
unfolding copies
length-copies zero n f = refl
length-copies (suc count) n f = omega (arith, length-copies count (n + 1) f)

offset-copies :
    (base count n : ℕ) (f : RawAuthEvent)
    → map (offset base) (copies count n f) ≡ copies count (base + n) f
unfolding copies
offset-copies base zero n f = refl
offset-copies base (suc count) n f =
    let e : base + (n + 1) ≡ base + n + 1 = omega arith in
    ap (◌∷◌ (record f { occurrence = base + n }))
      (offset-copies base count (n + 1) f ∙ ap (λ m. copies count m f) e)

-- The records of one line, numbered.
numbered-copies :
    (base count : ℕ) (f : RawAuthEvent)
    → (if eqb base 0 then copies count 0 f else map (offset base) (copies count 0 f))
      ≡ copies count base f
numbered-copies base count f = elim (Bool-cases (eqb base 0)) [
  | inl first ↦ let e : 0 ≡ base = ground (arith, first) in rw first (ap (λ n. copies count n f) e)
  | inr later ↦
      let e : base + 0 ≡ base = omega arith in
      rw later (offset-copies base count 0 f ∙ ap (λ n. copies count n f) e)
]

-- A line: its first record, and how many records it stands for.
pub record Line : Type 0 where
  pub first : RawAuthEvent
  pub count : ℕ

abbrev pub batch : Line → List RawAuthEvent
batch line = copies line.count 0 line.first

unfoldable pub number_all : List Line → Numbering → Numbering × List RawAuthEvent
unfolding number
number_all [] st = (st, [])
number_all (line ∷ lines) st =
    let o = number (batch line) st in let rest = number_all lines o.0 in (rest.0, o.1 ++ rest.1)

-- Two records are told apart by their key or by their occurrence.
abbrev pub Same : RawAuthEvent → RawAuthEvent → Type 0
Same r s = (key_of r ≡ key_of s) × (r.occurrence ≡ s.occurrence)

abbrev pub Apart : List RawAuthEvent → Type 0
Apart [] = Unit
Apart (r ∷ rs) = All (λ s. ¬ (Same r s)) rs × Apart rs

-- The records numbered later than a state.
abbrev pub Above : Numbering → RawAuthEvent → Type 0
Above st r = seen_of st (key_of r) ≤ r.occurrence

record InBatch (f : RawAuthEvent) (low high : ℕ) (r : RawAuthEvent) : Type 0 where
  pub keyed : key_of r ≡ key_of f
  pub from_low : low ≤ r.occurrence
  pub to_high : r.occurrence < high

copies-InBatch :
    (f : RawAuthEvent) (low high count n : ℕ)
    → low ≤ n
    → n + count ≤ high
    → All (InBatch f low high) (copies count n f)
unfolding copies
copies-InBatch f low high zero n h k = tt
copies-InBatch f low high (suc count) n h k = (
  record { keyed = refl; from_low = h; to_high = omega arith },
  copies-InBatch f low high count (n + 1) (omega arith) (omega arith),
)

copies-Apart : (f : RawAuthEvent) (count n : ℕ) → Apart (copies count n f)
unfolding copies
copies-Apart f zero n = tt
copies-Apart f (suc count) n = (
  All-imp (InBatch f (n + 1) (n + 1 + count)) (λ s. ¬ (Same (record f { occurrence = n }) s))
      (copies count (n + 1) f) (λ s b same. omega (arith, b.from_low, same.1))
      (copies-InBatch f (n + 1) (n + 1 + count) count (n + 1) (omega arith) (omega arith)),
  copies-Apart f count (n + 1),
)

Apart-append :
    (xs ys : List RawAuthEvent)
    → Apart xs
    → Apart ys
    → All (λ x. All (λ y. ¬ (Same x y)) ys) xs
    → Apart (xs ++ ys)
Apart-append [] ys hx hy h = hy
Apart-append (x ∷ xs) ys hx hy h =
    (All-append (λ y. ¬ (Same x y)) xs ys hx.0 h.0, Apart-append xs ys hx.1 hy h.1)

-- What one line does to the state, and the occurrences that its records get.
record Numbered (line : Line) (st : Numbering) (o : Numbering × List RawAuthEvent) : Type 0 where
  pub same_second : o.0.seen_ts ≡ st.seen_ts
  pub records : o.1 ≡ copies line.count (seen_of st (key_of line.first)) line.first
  pub counts :
      (k : AuthKey)
      → seen_of o.0 k ≡ (
          if key_of line.first == k
          then seen_of st (key_of line.first) + line.count
          else seen_of st k)

number-Numbered :
    (first : RawAuthEvent) (count : ℕ) (st : Numbering)
    → first.syslog_ts ≡ st.seen_ts
    → Numbered (record { first = first; count = count }) st (number (copies count 0 first) st)
unfolding number copies
number-Numbered first zero st e = record {
  same_second = refl;
  records = refl;
  counts = λ k. nothing k;
}
  where
    plus_zero : (n : ℕ) → n ≡ n + 0
    plus_zero n = omega arith

    nothing :
        (k : AuthKey)
        → seen_of st k ≡ (if key_of first == k then seen_of st (key_of first) + 0 else seen_of st k)
    nothing k = elim (Bool-cases (key_of first == k)) [
      | inl same ↦
          rw same (ap (seen_of st) (sym ((same_auth_iff (key_of first) k).0 same)) ∙ plus_zero _)
      | inr other ↦ rw other refl
    ]
number-Numbered first (suc count) st e =
    subst
      (λ now.
        Numbered (record { first = first; count = suc count }) st
          (number_from (key_of first) (seen_of now (key_of first)) (copies (suc count) 0 first)
            now))
      (sym now_is_st) numbered
  where
    now_is_st : at_second first.syslog_ts st ≡ st
    now_is_st = rw ((eq_iff first.syslog_ts st.seen_ts).1 e) refl

    key : AuthKey
    key = key_of first

    base : ℕ
    base = seen_of st key

    counts :
        (k : AuthKey)
        → count_or_zero (get k (set key (base + length (copies (suc count) 0 first)) st.seen))
          ≡ (if key == k then base + suc count else seen_of st k)
    counts k =
        ap count_or_zero (get-set key k (base + length (copies (suc count) 0 first)) st.seen)
        ∙ elim (Bool-cases (key == k)) [
          | inl same ↦ rw same (ap (λ n. base + n) (length-copies (suc count) 0 first))
          | inr other ↦ rw other refl
        ]

    numbered :
        Numbered
          (record { first = first; count = suc count })
          st
          (number_from key base (copies (suc count) 0 first) st)
    numbered = record {
      same_second = refl;
      records = numbered-copies base (suc count) first;
      counts = counts;
    }

Above-keyed :
    (line : Line) (st : Numbering) (o : Numbering × List RawAuthEvent) (y : RawAuthEvent)
    → Numbered line st o
    → Above o.0 y
    → Above st y
Above-keyed line st o y h a = elim (Bool-cases (key_of line.first == key_of y)) [
  | inl same ↦
      let p = (same_auth_iff (key_of line.first) (key_of y)).0 same in
      omega (arith, rw same at (h.counts (key_of y)), ap (seen_of st) p, a)
  | inr other ↦ omega (arith, rw other at (h.counts (key_of y)), a)
]

InBatch-apart :
    (line : Line) (st : Numbering) (o : Numbering × List RawAuthEvent) (x y : RawAuthEvent)
    → Numbered line st o
    → InBatch line.first
        (seen_of st (key_of line.first))
        (seen_of st (key_of line.first) + line.count)
        x
    → Above o.0 y
    → ¬ (Same x y)
InBatch-apart line st o x y h b a same =
    let k = sym b.keyed ∙ same.0 in
    let seen = rw ((same_auth_iff (key_of line.first) (key_of y)).1 k) at (h.counts (key_of y)) in
    omega (arith, seen, b.to_high, a, same.1)

-- Over any run of lines of one second, in whatever order they repeat one another, no two records that
-- come out agree in the host, the process, the message, the action and the occurrence, and none has an
-- occurrence that was given out before the run.
pub number_all-Apart :
    (ls : List Line) (st : Numbering)
    → All (λ (l : Line). l.first.syslog_ts ≡ st.seen_ts) ls
    → Apart (number_all ls st).1 × All (Above st) (number_all ls st).1
unfolding number_all
number_all-Apart [] st h = (tt, tt)
number_all-Apart (line ∷ ls) st h =
    let o = number (batch line) st in
    let one = number-Numbered line.first line.count st h.0 in
    let base = seen_of st (key_of line.first) in
    let B = InBatch line.first base (base + line.count) in
    let ys = (number_all ls o.0).1 in
    let rest = number_all-Apart ls o.0 (
      All-imp _ (λ (l : Line). l.first.syslog_ts ≡ o.0.seen_ts) ls (λ l e. e ∙ sym one.same_second)
        h.1) in
    let apart = subst Apart (sym one.records) (copies-Apart line.first line.count base) in
    let inside = subst (All B) (sym one.records) (
      copies-InBatch line.first base (base + line.count) line.count base (omega arith)
        (omega arith)) in
    (
      Apart-append o.1 ys apart rest.0 (
          All-imp B (λ x. All (λ y. ¬ (Same x y)) ys) o.1
            (λ x b.
              All-imp (Above o.0) (λ y. ¬ (Same x y)) ys
                (λ y a. InBatch-apart line st o x y one b a) rest.1)
            inside),
      All-append (Above st) o.1 ys
          (All-imp B (Above st) o.1 (λ x b. omega (arith, ap (seen_of st) b.keyed, b.from_low))
            inside)
          (All-imp (Above o.0) (Above st) ys (λ y a. Above-keyed line st o y one a) rest.1),
    )
