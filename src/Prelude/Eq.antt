-- ===== src/Prelude/Eq.antt =====
-- Equality of dictionary keys, as an interface with instances for texts, pairs of texts and numbers.
use Prim.Native.Nat.{ℕ}
use Prim.Native.String.{String}
use mathlib.Core.Path.{◌≡◌}
use mathlib.Core.Logic.{◌↔◌}
use mathlib.Core.Bool.{Bool, true, false, ◌&&◌}
use mathlib.Core.Option.{Option, none, some}
use sentinel_linux.Prelude.Int.{ℤ, int_same, int_same_iff}
use native.Mathlib.Omega.{arith}
use text.Mathlib.Text.{◌==◌ as str_eq}
use text.Mathlib.TextEquality.{eq_iff}
use sentinel_linux.Prelude.Tests.{eqb, eqb_iff}

pub record KeyEq {ℓ} (A : Type ℓ) : Type ℓ where
  pub same : A → A → Bool
  pub same_iff : (a b : A) → (same a b ≡ true) ↔ (a ≡ b)

infix 50 ◌==◌
abbrev pub ◌==◌ {ℓ} : {A : Type ℓ} ⦃e : KeyEq A⦄ → A → A → Bool
◌==◌ ⦃e⦄ = e.same

instance abbrev pub text_key : KeyEq String
text_key = record { same = str_eq; same_iff = eq_iff }

abbrev pub pair_same : String × String → String × String → Bool
pair_same p q = str_eq p.0 q.0 && str_eq p.1 q.1

pub pair_same_iff : (p q : String × String) → (pair_same p q ≡ true) ↔ (p ≡ q)
pair_same_iff p q = ground (arith, eq_iff p.0 q.0, eq_iff p.1 q.1)

instance abbrev pub pair_key : KeyEq (String × String)
pair_key = record { same = pair_same; same_iff = pair_same_iff }

instance abbrev pub nat_key : KeyEq ℕ
nat_key = record { same = eqb; same_iff = eqb_iff }

abbrev pub option_same {ℓ} : {A : Type ℓ} → (A → A → Bool) → Option A → Option A → Bool
option_same same none none = true
option_same same (some a) (some b) = same a b
option_same same none (some b) = false
option_same same (some a) none = false

pub option_same_iff {ℓ} :
    {A : Type ℓ} ⦃e : KeyEq A⦄ (o p : Option A) → (option_same e.same o p ≡ true) ↔ (o ≡ p)
option_same_iff none none = ground arith
option_same_iff ⦃e⦄ (some a) (some b) = ground (arith, e.same_iff a b)
option_same_iff none (some b) = ground arith
option_same_iff (some a) none = ground arith

instance abbrev pub int_key : KeyEq ℤ
int_key = record { same = int_same; same_iff = int_same_iff }

instance abbrev pub option_text_key : KeyEq (Option String)
option_text_key = record { same = option_same str_eq; same_iff = option_same_iff }
