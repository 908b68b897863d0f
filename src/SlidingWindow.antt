-- ===== src/SlidingWindow.antt =====
-- The deque of time stamps, oldest first, that three parts of the program keep in the same way: the
-- thresholds of src/sentinel/detection/engine.py, the throttle of src/sentinel/alerting/manager.py
-- and the rate limit of src/sentinel/api/security.py. `window[0] < now - span` is written without
-- the subtraction, which may pass below zero.
pub mod Limiter
use sentinel_linux.Prelude.{
  ℕ, suc, ◌+◌, ◌≤◌, ◌<◌, ◌≡◌, refl, ap, Bool, true, false, List, [], ◌∷◌, ◌++◌, length,
  length-append, keep, ltb, leb, arith, if◌then◌else◌, Bool-cases, inl, inr,
}

-- `while window and window[0] < cutoff: window.popleft()`
unfoldable pub trim : ℕ → ℕ → List ℕ → List ℕ
trim now span [] = []
trim now span (t ∷ window) =
    let rest = trim now span window in if ltb (t + span) now then rest else t ∷ window

abbrev pub recent : ℕ → ℕ → ℕ → Bool
recent now span t = leb now (t + span)

-- From `lo` on, never decreasing.
abbrev pub Ascending : ℕ → List ℕ → Type 0
Ascending lo [] = Unit
Ascending lo (t ∷ window) = (lo ≤ t) × Ascending t window

pub Ascending-weaken : (lo lo' : ℕ) (l : List ℕ) → lo' ≤ lo → Ascending lo l → Ascending lo' l
Ascending-weaken lo lo' [] le h = tt
Ascending-weaken lo lo' (t ∷ l) le h = (omega arith, h.1)

keep_all_recent :
    (now span lo : ℕ) (l : List ℕ) → now ≤ lo + span → Ascending lo l → keep (recent now span) l ≡ l
keep_all_recent now span lo [] le h = refl
keep_all_recent now span lo (t ∷ l) le h = ground (arith, keep_all_recent now span t l)

-- Of stamps in order the loop drops exactly those that are older than the span.
pub trim-eq-keep :
    (now span lo : ℕ) (l : List ℕ) → Ascending lo l → trim now span l ≡ keep (recent now span) l
unfolding trim
trim-eq-keep now span lo [] h = refl
trim-eq-keep now span lo (t ∷ l) h =
    ground (arith, trim-eq-keep now span t l, keep_all_recent now span t l)

pub length-trim-le : (now span : ℕ) (l : List ℕ) → length (trim now span l) ≤ length l
unfolding trim
length-trim-le now span [] = omega arith
length-trim-le now span (t ∷ l) = ground (arith, length-trim-le now span l)

pub Ascending-trim :
    (now span lo : ℕ) (l : List ℕ) → Ascending lo l → Ascending lo (trim now span l)
unfolding trim
Ascending-trim now span lo [] h = h
Ascending-trim now span lo (t ∷ l) h = elim (Bool-cases (ltb (t + span) now)) [
  | inl old ↦ rw old (Ascending-trim now span lo l (Ascending-weaken t lo l h.0 h.1))
  | inr new ↦ rw new h
]

-- Every stamp is at most `hi`.
abbrev pub Below : ℕ → List ℕ → Type 0
Below hi [] = Unit
Below hi (t ∷ l) = (t ≤ hi) × Below hi l

pub Below-weaken : (hi hi' : ℕ) (l : List ℕ) → hi ≤ hi' → Below hi l → Below hi' l
Below-weaken hi hi' [] le h = tt
Below-weaken hi hi' (t ∷ l) le h = (omega arith, Below-weaken hi hi' l le h.1)

pub Below-trim : (now span hi : ℕ) (l : List ℕ) → Below hi l → Below hi (trim now span l)
unfolding trim
Below-trim now span hi [] h = h
Below-trim now span hi (t ∷ l) h = elim (Bool-cases (ltb (t + span) now)) [
  | inl old ↦ rw old (Below-trim now span hi l h.1)
  | inr new ↦ rw new h
]

pub Ascending-append :
    (lo now : ℕ) (l : List ℕ)
    → lo ≤ now
    → Below now l
    → Ascending lo l
    → Ascending lo (l ++ now ∷ [])
Ascending-append lo now [] le b h = (le, tt)
Ascending-append lo now (t ∷ l) le b h = (h.0, Ascending-append t now l b.0 b.1 h.1)

pub Below-append : (now : ℕ) (l : List ℕ) → Below now l → Below now (l ++ now ∷ [])
Below-append now [] b = (omega arith, tt)
Below-append now (t ∷ l) b = (b.0, Below-append now l b.1)

pub keep-append : (p : ℕ → Bool) (xs ys : List ℕ) → keep p (xs ++ ys) ≡ keep p xs ++ keep p ys
keep-append p [] ys = refl
keep-append p (x ∷ xs) ys = elim (Bool-cases (p x)) [
  | inl kept ↦ rw kept (ap (◌∷◌ x) (keep-append p xs ys))
  | inr gone ↦ rw gone (keep-append p xs ys)
]
