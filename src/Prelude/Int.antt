-- ===== src/Prelude/Int.antt =====
-- Signed integers over the native numbers, as far as the program compares them.
use sentinel_linux.Prelude.Tests.{ltb, leb, eqb, eqb_iff, if◌then◌else◌}
use Prim.Native.Nat.{ℕ, suc, ◌+◌, ◌-◌, ◌*◌}
use mathlib.Core.Path.{◌≡◌}
use mathlib.Core.Logic.{◌↔◌}
use mathlib.Core.Bool.{Bool, true, false}
use mathlib.Core.Option.{Option, none, some}
use native.Mathlib.Omega.{arith}

-- `negsuc n` is -(n + 1).
pub data ℤ : Type 0 where
  pos : ℕ → ℤ
  negsuc : ℕ → ℤ

abbrev pub pos_part : ℤ → ℕ
pos_part (pos n) = n
pos_part (negsuc n) = 0

abbrev pub neg_part : ℤ → ℕ
neg_part (pos n) = 0
neg_part (negsuc n) = suc n

-- a * m < b * n and a * m = b * n, for integers a, b and naturals m, n.
abbrev pub ltb_scaled : ℤ → ℕ → ℤ → ℕ → Bool
ltb_scaled a m b n = ltb (pos_part a * m + neg_part b * n) (pos_part b * n + neg_part a * m)

abbrev pub eqb_scaled : ℤ → ℕ → ℤ → ℕ → Bool
eqb_scaled a m b n = eqb (pos_part a * m + neg_part b * n) (pos_part b * n + neg_part a * m)

-- a - n for a natural n.
abbrev pub minus : ℤ → ℕ → ℤ
minus (pos a) n = if leb n a then pos (a - n) else negsuc (n - a - 1)
minus (negsuc a) n = negsuc (a + n)

-- The number, if it is not negative.
abbrev pub natural : ℤ → Option ℕ
natural (pos n) = some n
natural (negsuc n) = none

abbrev pub int_same : ℤ → ℤ → Bool
int_same (pos a) (pos b) = eqb a b
int_same (negsuc a) (negsuc b) = eqb a b
int_same (pos a) (negsuc b) = false
int_same (negsuc a) (pos b) = false

pub int_same_iff : (a b : ℤ) → (int_same a b ≡ true) ↔ (a ≡ b)
int_same_iff (pos a) (pos b) = ground (arith, eqb_iff a b)
int_same_iff (negsuc a) (negsuc b) = ground (arith, eqb_iff a b)
int_same_iff (pos a) (negsuc b) = ground arith
int_same_iff (negsuc a) (pos b) = ground arith
