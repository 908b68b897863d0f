-- ===== src/Runtime/Flusher.antt =====
-- The flusher's waits, `_flush_periodically` of src/sentinel/runtime.py. Times are in microseconds.
use sentinel_linux.Prelude.{
  ℕ, zero, suc, ap, ◌*◌, ◌≤◌, ◌≡◌, refl, Bool, true, false, List, [], ◌∷◌, min, max, All, arith,
  if◌then◌else◌,
}

abbrev pub max_retry_backoff : ℕ
max_retry_backoff = 30000000

-- The delay after a flush, from the delay before it; the argument in the middle is `flush_interval`.
unfoldable pub next_wait : Bool → ℕ → ℕ → ℕ
next_wait written interval delay = if written then interval else min (delay * 2) max_retry_backoff

-- The delays of the loop, one for each flush, by what the flushes returned.
unfoldable pub waits : ℕ → ℕ → List Bool → List ℕ
unfolding next_wait
waits interval delay [] = []
waits interval delay (written ∷ outcomes) =
    let next = next_wait written interval delay in next ∷ waits interval next outcomes

-- No wait is longer than the flush interval or half a minute, whichever is more, and none is
-- shorter than both.
pub waits_bounded :
    (interval : ℕ) (outcomes : List Bool)
    → All
        (λ d. (min interval max_retry_backoff ≤ d) × (d ≤ max interval max_retry_backoff))
        (waits interval interval outcomes)
unfolding waits
waits_bounded interval outcomes = go interval outcomes (omega arith)
  where
    go :
        (delay : ℕ) (outcomes : List Bool)
        → min interval max_retry_backoff ≤ delay
        → All
            (λ d. (min interval max_retry_backoff ≤ d) × (d ≤ max interval max_retry_backoff))
            (waits interval delay outcomes)
    go delay [] le = tt
    go delay (true ∷ outcomes) le = ((omega arith, omega arith), go interval outcomes (omega arith))
    go delay (false ∷ outcomes) le =
        ((omega arith, omega arith), go (min (delay * 2) max_retry_backoff) outcomes (omega arith))

abbrev pub failures : ℕ → List Bool
failures zero = []
failures (suc n) = false ∷ failures n

-- interval * 2, interval * 4, …, each cut at the maximum.
abbrev pub doubled : ℕ → ℕ → List ℕ
doubled d zero = []
doubled d (suc n) = min (d * 2) max_retry_backoff ∷ doubled (d * 2) n

-- While the database is down the waits double from the flush interval on, up to half a minute.
pub outage-doubled : (interval n : ℕ) → waits interval interval (failures n) ≡ doubled interval n
unfolding waits
outage-doubled interval zero = refl
outage-doubled interval (suc n) =
    ap (◌∷◌ (min (interval * 2) max_retry_backoff)) (go (interval * 2) n)
  where
    again :
        (d : ℕ)
        → min (min d max_retry_backoff * 2) max_retry_backoff ≡ min (d * 2) max_retry_backoff
    again d = omega arith

    go : (d n : ℕ) → waits interval (min d max_retry_backoff) (failures n) ≡ doubled d n
    go d zero = refl
    go d (suc n) = rw (again d) (ap (◌∷◌ (min (d * 2) max_retry_backoff)) (go (d * 2) n))
