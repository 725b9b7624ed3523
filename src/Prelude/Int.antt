-- ===== src/Prelude/Int.antt =====
-- Signed integers over the native numbers, and the numbers of JavaScript that the source tests
-- with `Number.isFinite`: whole numbers, the infinities and NaN.
use Prim.Native.Nat.{ℕ, zero, suc, ◌+◌, ◌-◌, ◌<◌}
use mathlib.Core.Path.{◌≡◌}
use mathlib.Core.Bool.{Bool}
use mathlib.Core.Option.{Option, none, some}
use native.Mathlib.Omega.{arith}
use synth_agent_runtime.Prelude.Tests.{eqb, if◌then◌else◌, leb, ltb}

-- `negsuc n` is -(n + 1).
pub data ℤ : Type 0 where
  pos : ℕ → ℤ
  negsuc : ℕ → ℤ

abbrev pub pos_part : ℤ → ℕ
pos_part (pos n) = n
pos_part (negsuc n) = 0

abbrev pub neg_part : ℤ → ℕ
neg_part (pos n) = 0
neg_part (negsuc n) = suc n

-- a - b, as an integer.
abbrev pub sub_ℕ : ℕ → ℕ → ℤ
sub_ℕ a b = if leb b a then pos (a - b) else negsuc (b - a - 1)

infixl 65 ◌+ℤ◌ ◌-ℤ◌
unfoldable pub ◌+ℤ◌ : ℤ → ℤ → ℤ
a +ℤ b = sub_ℕ (pos_part a + pos_part b) (neg_part a + neg_part b)

unfoldable pub ◌-ℤ◌ : ℤ → ℤ → ℤ
a -ℤ b = sub_ℕ (pos_part a + neg_part b) (neg_part a + pos_part b)

abbrev pub ltb_ℤ : ℤ → ℤ → Bool
ltb_ℤ a b = ltb (pos_part a + neg_part b) (pos_part b + neg_part a)

abbrev pub eqb_ℤ : ℤ → ℤ → Bool
eqb_ℤ a b = eqb (pos_part a + neg_part b) (pos_part b + neg_part a)

pub data JsNumber : Type 0 where
  whole : ℤ → JsNumber
  infinity neg_infinity nan : JsNumber

-- `Number.isFinite(x) && x > 0`, with the value; a whole number is one that counts milliseconds.
unfoldable pub positive : JsNumber → Option ℕ
positive (whole (pos zero)) = none
positive (whole (pos (suc n))) = some (suc n)
positive (whole (negsuc n)) = none
positive infinity = none
positive neg_infinity = none
positive nan = none

pub positive_pos : (x : JsNumber) (n : ℕ) → positive x ≡ some n → 0 < n
unfolding positive
positive_pos x n h = ground arith

abbrev pub max_ℤ : ℤ → ℤ → ℤ
max_ℤ a b = if ltb_ℤ a b then b else a
