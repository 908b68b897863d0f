-- ===== src/Detection/Engine/Bursts.antt =====
-- A run of matches of one group: the sliding window against its definition on the whole history.
use sentinel_linux.Prelude.{ℕ, ◌≡◌, Bool, List, [], ◌∷◌, ◌++◌, keep, if◌then◌else◌}
use sentinel_linux.SlidingWindow.{recent, Ascending, Below}
use sentinel_linux.Detection.Engine.Thresholds.{hit}

-- The window after each match, and the matches since the rule last fired, oldest first.
pub record Burst : Type 0 where
  pub window : List ℕ
  pub since : List ℕ

abbrev pub noted : List ℕ × Bool → List ℕ → Burst
noted (window, fired) log = record { window = window; since = if fired then [] else log }

unfoldable pub burst : ℕ → ℕ → Burst → List ℕ → Burst
burst span count b [] = b
burst span count b (moment ∷ moments) =
    burst span count (noted (hit span count moment b.window) (b.since ++ moment ∷ [])) moments

abbrev pub quiet : Burst
quiet = record { window = []; since = [] }

record Follows (span now : ℕ) (b : Burst) : Type 0 where
  exact : b.window ≡ keep (recent now span) b.since
  ordered : Ascending 0 b.since
  past : Below now b.since
