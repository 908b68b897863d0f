-- ===== src/SlidingWindow/Limiter.antt =====
-- The rate limit that the alert throttle (`_is_throttled` of src/sentinel/alerting/manager.py) and
-- the HTTP rate limit (`RateLimitMiddleware.dispatch` of src/sentinel/api/security.py) share.
use sentinel_linux.Prelude.{
  ℕ, ◌≤◌, ◌≡◌, refl, sym, ap, ◌∙◌, append-nil, append_assoc, Bool, true, false, List, [], ◌∷◌, ◌++◌,
  length, length-append, length-keep-le, keep, ltb, leb, arith, if◌then◌else◌, Bool-cases, inl, inr,
}
use sentinel_linux.SlidingWindow.{
  trim, recent, Ascending, Below, Ascending-weaken, Below-weaken, trim-eq-keep, length-trim-le,
  Ascending-append, Below-append, keep-append,
}

-- Drop the stamps older than the span; below the limit, record this one. The result says whether
-- the call is within the limit.
unfoldable pub admit : ℕ → ℕ → ℕ → List ℕ → List ℕ × Bool
unfolding trim
admit span limit now window =
    let live = trim now span window in
    if leb limit (length live) then (live, false) else (live ++ now ∷ [], true)

-- A window with the log of all stamps that it admitted, oldest first.
pub record Budget : Type 0 where
  pub window : List ℕ
  pub admitted : List ℕ

abbrev pub logged : List ℕ × Bool → ℕ → List ℕ → Budget
logged (window, ok) now log = record {
  window = window;
  admitted = if ok then log ++ now ∷ [] else log;
}

unfoldable pub feed : ℕ → ℕ → Budget → ℕ → Budget
unfolding admit
feed span limit b now = logged (admit span limit now b.window) now b.admitted

-- The stamp of a call, if it was admitted; and the log with it.
abbrev pub stamp : ℕ → Bool → List ℕ
stamp now ok = if ok then now ∷ [] else []

pub logged_stamp :
    (answer : List ℕ × Bool) (now : ℕ) (log : List ℕ)
    → ((logged answer now log).window ≡ answer.0)
      × ((logged answer now log).admitted ≡ log ++ stamp now answer.1)
logged_stamp (window, true) now log = (refl, refl)
logged_stamp (window, false) now log = (refl, sym (append-nil log))

pub join_stamps :
    (log : List ℕ) (now : ℕ) (ok : Bool) (later : List ℕ)
    → (log ++ stamp now ok) ++ later ≡ log ++ (if ok then now ∷ later else later)
join_stamps log now true later = append_assoc log (now ∷ []) later
join_stamps log now false later = rw append-nil refl

unfoldable pub feed_all : ℕ → ℕ → Budget → List ℕ → Budget
unfolding feed
feed_all span limit b [] = b
feed_all span limit b (now ∷ times) = feed_all span limit (feed span limit b now) times

abbrev pub fresh : Budget
fresh = record { window = []; admitted = [] }

-- The window holds exactly the admitted stamps within the span, and no more than the limit.
pub record Tracks (span limit now : ℕ) (b : Budget) : Type 0 where
  pub exact : b.window ≡ keep (recent now span) b.admitted
  pub ordered : Ascending 0 b.admitted
  pub past : Below now b.admitted
  pub within : length b.window ≤ limit

module _ (span : ℕ) where
  pub keep_again :
      (before now : ℕ) (l : List ℕ)
      → before ≤ now
      → keep (recent now span) (keep (recent before span) l) ≡ keep (recent now span) l
  keep_again before now [] le = refl
  keep_again before now (t ∷ l) le = ground (arith, keep_again before now l le)

  pub Ascending-keep :
      (p : ℕ → Bool) (lo : ℕ) (l : List ℕ) → Ascending lo l → Ascending lo (keep p l)
  Ascending-keep p lo [] h = h
  Ascending-keep p lo (t ∷ l) h = elim (Bool-cases (p t)) [
    | inl kept ↦ rw kept (h.0, Ascending-keep p t l h.1)
    | inr gone ↦ rw gone (Ascending-keep p lo l (Ascending-weaken t lo l h.0 h.1))
  ]

  -- Trimming the window of an exact budget gives the admitted stamps within the span of `now`.
  pub trim-window :
      (limit before now : ℕ) (b : Budget)
      → before ≤ now
      → Tracks span limit before b
      → trim now span b.window ≡ keep (recent now span) b.admitted
  trim-window limit before now b le t = rw t.exact (
      trim-eq-keep now span 0 (keep (recent before span) b.admitted)
        (Ascending-keep (recent before span) 0 b.admitted t.ordered)
      ∙ keep_again before now b.admitted le)

  pub feed-Tracks :
      (limit before now : ℕ) (b : Budget)
      → before ≤ now
      → Tracks span limit before b
      → Tracks span limit now (feed span limit b now)
  unfolding feed
  feed-Tracks limit before now b le t =
      elim (Bool-cases (leb limit (length (trim now span b.window)))) [
        | inl full ↦ rw full (record {
          exact = trim-window limit before now b le t;
          ordered = t.ordered;
          past = Below-weaken before now b.admitted le t.past;
          within = omega (arith, length-trim-le now span b.window, t.within);
        })
        | inr room ↦ rw room (record {
          exact = rw (trim-window limit before now b le t, keep-append, recent_self now) refl;
          ordered =
              Ascending-append 0 now b.admitted (omega arith)
                (Below-weaken before now b.admitted le t.past) t.ordered;
          past = Below-append now b.admitted (Below-weaken before now b.admitted le t.past);
          within = ground (arith, length-append (trim now span b.window) (now ∷ []));
        })
      ]
    where
      recent_self : (now : ℕ) → recent now span now ≡ true
      recent_self now = ground arith

  pub feed_all-Tracks :
      (limit before : ℕ) (b : Budget) (times : List ℕ)
      → Ascending before times
      → Tracks span limit before b
      → (last : ℕ) × Tracks span limit last (feed_all span limit b times)
        × ((now : ℕ) → before ≤ now → Below now times → last ≤ now)
  unfolding feed_all
  feed_all-Tracks limit before b [] h t = (before, t, λ now le below. le)
  feed_all-Tracks limit before b (now ∷ times) h t =
      let r =
        feed_all-Tracks limit now (feed span limit b now) times h.1
          (feed-Tracks limit before now b h.0 t) in
      (r.0, r.1, λ later le below. r.2 later below.0 below.1)

pub fresh-Tracks : (span limit : ℕ) → Tracks span limit 0 fresh
fresh-Tracks span limit = record { exact = refl; ordered = tt; past = tt; within = omega arith }

-- Of what an exact window has admitted, at most `limit` lie within the span at any later time.
pub admitted_bounded :
    (span limit last now : ℕ) (b : Budget)
    → last ≤ now
    → Tracks span limit last b
    → length (keep (recent now span) b.admitted) ≤ limit
admitted_bounded span limit last now b le t = omega (
  arith,
  t.within,
  ap (λ (l : List ℕ). length l) (keep_again span last now b.admitted le),
  length-keep-le (recent now span) (keep (recent last span) b.admitted),
  ap (λ (l : List ℕ). length l) t.exact,
)

-- However many calls arrive, in order of time, at most `limit` of those within a span before `now`
-- were admitted.
pub rate_bounded :
    (span limit now : ℕ) (times : List ℕ)
    → Ascending 0 times
    → Below now times
    → length (keep (recent now span) (feed_all span limit fresh times).admitted) ≤ limit
rate_bounded span limit now times h below =
    let r = feed_all-Tracks span limit 0 fresh times h (fresh-Tracks span limit) in
    admitted_bounded span limit r.0 now (feed_all span limit fresh times)
      (r.2 now (omega arith) below) r.1

-- After any calls in order of time, a call at `now` is admitted exactly when fewer than `limit`
-- were admitted within the span before it.
pub admitted_iff :
    (span limit now : ℕ) (times : List ℕ)
    → Ascending 0 times
    → Below now times
    → (admit span limit now (feed_all span limit fresh times).window).1
      ≡ ltb (length (keep (recent now span) (feed_all span limit fresh times).admitted)) limit
unfolding admit
admitted_iff span limit now times h below =
    let r = feed_all-Tracks span limit 0 fresh times h (fresh-Tracks span limit) in
    rw
      (trim-window span limit r.0 now (feed_all span limit fresh times)
        (r.2 now (omega arith) below) r.1)
      (ground arith)
