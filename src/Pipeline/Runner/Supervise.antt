-- ===== src/Pipeline/Runner/Supervise.antt =====
-- `Pipeline._supervise`: the restarts of a collector that raises, with exponential backoff.
use sentinel_linux.Prelude.{
  ℕ, zero, suc, ◌*◌, ◌≤◌, ◌≡◌, refl, Bool, true, false, List, [], ◌∷◌, length, leb, eqb,
  if◌then◌else◌, arith, ap, min, All, ◌||◌,
}

abbrev pub restart_min : ℕ
restart_min = 1

abbrev pub restart_max : ℕ
restart_max = 60

abbrev pub stable_run : ℕ
stable_run = 60

-- How one `collector.run` ended: it returned, or it raised after `elapsed` seconds, and then
-- `wait_stop(delay)` said whether a stop was signalled during the wait.
pub data Attempt : Type 0 where
  completed : Attempt
  crashed : ℕ → Bool → Attempt

-- `_RESTART_MIN_S if stable or not delay else min(delay * 2, _RESTART_MAX_S)`
unfoldable pub next_delay : ℕ → ℕ → ℕ
next_delay elapsed delay =
    if leb stable_run elapsed || eqb delay 0 then restart_min else min (delay * 2) restart_max

-- What the loop leaves behind: the delays it waited, oldest first, and whether it has returned
-- (false: it has used up the attempts given and would run the collector again).
pub record Supervision : Type 0 where
  pub delays : List ℕ
  pub returned : Bool

unfoldable pub supervise : ℕ → List Attempt → Supervision
unfolding next_delay
supervise delay [] = record { delays = []; returned = false }
supervise delay (completed ∷ attempts) = record { delays = []; returned = true }
supervise delay (crashed elapsed stop ∷ attempts) =
    let next = next_delay elapsed delay in
    let rest = supervise next attempts in
    if stop
    then record { delays = next ∷ []; returned = true }
    else record { delays = next ∷ rest.delays; returned = rest.returned }

-- Every delay lies between the minimum and the maximum, whatever the attempts do.
pub delays_bounded :
    (delay : ℕ) (attempts : List Attempt)
    → All (λ d. (restart_min ≤ d) × (d ≤ restart_max)) (supervise delay attempts).delays
unfolding supervise
delays_bounded delay [] = tt
delays_bounded delay (completed ∷ attempts) = tt
delays_bounded delay (crashed elapsed true ∷ attempts) = (ground arith, tt)
delays_bounded delay (crashed elapsed false ∷ attempts) =
    (ground arith, delays_bounded (next_delay elapsed delay) attempts)

-- `n` crashes in a row, none of them after a stable run and no stop.
abbrev pub crash_loop : List ℕ → List Attempt
crash_loop [] = []
crash_loop (elapsed ∷ l) = crashed elapsed false ∷ crash_loop l

-- 1, 2, 4, … up to the maximum.
abbrev pub backoff : ℕ → ℕ → List ℕ
backoff d zero = []
backoff d (suc n) = min d restart_max ∷ backoff (d * 2) n

next_delay_unstable :
    (d elapsed : ℕ)
    → 1 ≤ d
    → elapsed ≤ 59
    → next_delay elapsed (min d restart_max) ≡ min (d * 2) restart_max
unfolding next_delay
next_delay_unstable d elapsed h short = ground arith

next_delay_first : (elapsed : ℕ) → next_delay elapsed 0 ≡ 1
unfolding next_delay
next_delay_first elapsed = ground arith

next_delay_stable :
    (delay elapsed : ℕ) → stable_run ≤ elapsed → next_delay elapsed delay ≡ restart_min
unfolding next_delay
next_delay_stable delay elapsed h = ground arith

backoff_from :
    (d : ℕ) (runs : List ℕ)
    → 1 ≤ d
    → All (λ elapsed. elapsed ≤ 59) runs
    → (supervise (min d restart_max) (crash_loop runs)).delays ≡ backoff (d * 2) (length runs)
unfolding supervise
backoff_from d [] h short = refl
backoff_from d (elapsed ∷ runs) h short =
    rw (next_delay_unstable d elapsed h short.0)
      (ap (◌∷◌ (min (d * 2) restart_max)) (backoff_from (d * 2) runs (omega arith) short.1))

-- From the start, runs that each crash within a minute are restarted after 1, 2, 4, … seconds,
-- up to the maximum, once for each crash.
pub crash_loop-backoff :
    (runs : List ℕ)
    → All (λ elapsed. elapsed ≤ 59) runs
    → (supervise 0 (crash_loop runs)).delays ≡ backoff 1 (length runs)
unfolding supervise
crash_loop-backoff [] short = refl
crash_loop-backoff (elapsed ∷ runs) short =
    rw (next_delay_first elapsed) (ap (◌∷◌ 1) (backoff_from 1 runs (omega arith) short.1))

-- A crash after a stable run is restarted after the minimum, whatever the delay had grown to.
pub stable_resets :
    (delay elapsed : ℕ) (attempts : List Attempt)
    → stable_run ≤ elapsed
    → (supervise delay (crashed elapsed false ∷ attempts)).delays
      ≡ restart_min ∷ (supervise restart_min attempts).delays
unfolding supervise
stable_resets delay elapsed attempts h = rw (next_delay_stable delay elapsed h)
