-- ===== src/Collectors/AuthLog/Lines.antt =====
-- How authlog.py cuts lines out of the bytes that it reads, a chunk at a time.
pub mod Chunks
use sentinel_linux.Prelude.{
  ℕ, ◌+◌, Bool, true, false, ◌&&◌, List, [], ◌∷◌, ◌++◌, length, if◌then◌else◌, eqb, ltb,
}

abbrev pub max_line_len : ℕ
max_line_len = 8192

-- `data.split(b"\n")`: the complete lines and what follows the last newline.
abbrev pub cons_byte : ℕ → List (List ℕ) × List ℕ → List (List ℕ) × List ℕ
cons_byte b ([], rest) = ([], b ∷ rest)
cons_byte b (l ∷ ls, rest) = ((b ∷ l) ∷ ls, rest)

unfoldable pub split_lines : List ℕ → List (List ℕ) × List ℕ
split_lines [] = ([], [])
split_lines (b ∷ bytes) =
    let r = split_lines bytes in if eqb b 10 then ([] ∷ r.0, r.1) else cons_byte b r

-- The tail state that `_split` changes.
pub record Pending : Type 0 where
  pub buf : List ℕ
  pub discarding : Bool
  pub skipped : ℕ

abbrev pub without_first : List (List ℕ) → List (List ℕ)
without_first [] = []
without_first (l ∷ ls) = ls

abbrev pub is_some_line : List (List ℕ) → Bool
is_some_line [] = false
is_some_line (l ∷ ls) = true

-- A partial line that is too long is dropped up to its newline.
abbrev pub keep_rest : Bool → List ℕ → ℕ → Pending
keep_rest discarding rest skipped =
    if ltb max_line_len (length rest)
    then record { buf = []; discarding = true; skipped = skipped + 1 }
    else record { buf = rest; discarding = discarding; skipped = skipped }

abbrev pub split_pending : List (List ℕ) × List ℕ → Bool → ℕ → Pending × List (List ℕ)
split_pending (complete, rest) discarding skipped =
    if discarding && is_some_line complete
    then (keep_rest false rest skipped, without_first complete)
    else (keep_rest discarding rest skipped, complete)

-- `_split`, before the lines are decoded.
unfoldable pub split : List ℕ → Pending → Pending × List (List ℕ)
unfolding split_lines
split chunk p = split_pending (split_lines (p.buf ++ chunk)) p.discarding p.skipped

-- `_flush_partial`
abbrev flushed : Bool → List ℕ → List (List ℕ)
flushed true buf = []
flushed false [] = []
flushed false (b ∷ buf) = (b ∷ buf) ∷ []

unfoldable pub flush_partial : Pending → Pending × List (List ℕ)
flush_partial p =
    (record { buf = []; discarding = false; skipped = p.skipped }, flushed p.discarding p.buf)
