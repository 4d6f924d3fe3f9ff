-- ===== src/Prelude/Int.antt =====
-- Go's `int`, and instants and durations: integers, with the 64-bit wrap-around and saturation
-- that the program's operations have.
use Prim.Native.Nat.{ℕ, zero, suc, ◌+◌, ◌-◌, ◌≤◌, ◌<◌}
use mathlib.Core.Path.{◌≡◌}
use mathlib.Core.Bool.{Bool, true}
use native.Mathlib.Omega.{arith}
use fluxgate_operator.Prelude.Tests.{ltb, leb, eqb, if◌then◌else◌}

-- `negsuc n` is -(n + 1).
pub data ℤ : Type 0 where
  pos : ℕ → ℤ
  negsuc : ℕ → ℤ

abbrev pub pos_part : ℤ → ℕ
pos_part (pos n) = n
pos_part (negsuc n) = 0

abbrev pub neg_part : ℤ → ℕ
neg_part (pos n) = 0
neg_part (negsuc n) = suc n

infix 50 ◌≤ℤ◌
abbrev pub ◌≤ℤ◌ : ℤ → ℤ → Type 0
a ≤ℤ b = pos_part a + neg_part b ≤ pos_part b + neg_part a

infix 50 ◌<ℤ◌
abbrev pub ◌<ℤ◌ : ℤ → ℤ → Type 0
a <ℤ b = pos_part a + neg_part b < pos_part b + neg_part a

abbrev pub ltb_ℤ : ℤ → ℤ → Bool
ltb_ℤ a b = ltb (pos_part a + neg_part b) (pos_part b + neg_part a)

abbrev pub eqb_ℤ : ℤ → ℤ → Bool
eqb_ℤ a b = eqb (pos_part a + neg_part b) (pos_part b + neg_part a)

-- 2 ^ 63
abbrev pub int_limit : ℕ
int_limit = 9223372036854775808

-- `x++` on an `int` of 64 bits: the greatest value wraps to the least.
unfoldable pub int_inc : ℤ → ℤ
int_inc (pos n) = if eqb (n + 1) int_limit then negsuc n else pos (n + 1)
int_inc (negsuc zero) = pos 0
int_inc (negsuc (suc n)) = negsuc n

-- a - b, as an integer.
abbrev pub sub_ℕ : ℕ → ℕ → ℤ
sub_ℕ a b = if leb b a then pos (a - b) else negsuc (b - a - 1)

-- `time.Time.Sub` in nanoseconds: the difference, held to the range of an `int64`.
unfoldable pub saturate : ℤ → ℤ
saturate (pos n) = if ltb n int_limit then pos n else pos (int_limit - 1)
saturate (negsuc n) = if ltb n int_limit then negsuc n else negsuc (int_limit - 1)

unfoldable pub time_sub : ℤ → ℤ → ℤ
unfolding saturate
time_sub a b = saturate (sub_ℕ (pos_part a + neg_part b) (neg_part a + pos_part b))

pub eqb_ℤ-eq : (a b : ℤ) → eqb_ℤ a b ≡ true → a ≡ b
eqb_ℤ-eq a b h = ground arith

pub eqb_ℤ_refl : (a : ℤ) → eqb_ℤ a a ≡ true
eqb_ℤ_refl a = ground arith

pub int_inc_pos : (n : ℕ) → n + 1 < int_limit → int_inc (pos n) ≡ pos (n + 1)
unfolding int_inc
int_inc_pos n h = ground arith

-- Within the range of an `int64` the difference of two instants is exact, as an order on it shows.
pub time_sub-lt :
    (a b d : ℤ)
    → pos_part d < int_limit
    → ltb_ℤ (time_sub a b) d ≡ true
    → pos_part a + neg_part b + neg_part d < neg_part a + pos_part b + pos_part d + 1
unfolding time_sub
time_sub-lt a b d h k = ground arith
