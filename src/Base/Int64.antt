-- ===== src/Base/Int64.antt =====
-- Go's int64: integers kept in [-2^63, 2^63) by two's-complement wrap-around, and the unexported
-- helpers `min64` and `clampI64` of internal/collections/budget.go.
use Prim.Native.Nat.{ℕ, ◌+◌, ◌-◌, ◌/◌, ◌%◌, ◌^◌, ◌≤◌, ◌<◌}
use mathlib.Core.Path.{◌≡◌, ◌∙◌}
use native.Mathlib.Omega.{arith}
use mathlib.Core.Bool.{Bool, true, false}
use mathlib.Core.Logic.{◌↔◌}
use wave_span.Base.Tests.{ltb, ◌==◌, if◌then◌else◌}
use wave_span.Base.Int.{ℤ, pos, negsuc, pos_part, neg_part, +ℤ_parts, ◌+ℤ◌, ◌-ℤ◌, ◌*ℤ◌, ltb_ℤ}

-- The uint64 bit pattern of an integer.
abbrev pub to_u64 : ℤ → ℕ
to_u64 x = (pos_part x + (2 ^ 64 - neg_part x % 2 ^ 64)) % 2 ^ 64

-- The int64 with a given bit pattern.
abbrev pub from_u64 : ℕ → ℤ
from_u64 m = if ltb m (2 ^ 63) then pos m else negsuc (2 ^ 64 - m - 1)

unfoldable pub wrap64 : ℤ → ℤ
wrap64 x = from_u64 (to_u64 x)

unfoldable pub add64 : ℤ → ℤ → ℤ
add64 a b = wrap64 (a +ℤ b)

unfoldable pub sub64 : ℤ → ℤ → ℤ
sub64 a b = wrap64 (a -ℤ b)

unfoldable pub mul64 : ℤ → ℤ → ℤ
mul64 a b = wrap64 (a *ℤ b)

-- Division truncates towards zero; the divisor is never 0 where it is used.
unfoldable pub div64 : ℤ → ℤ → ℤ
div64 (pos a) (pos b) = pos (a / b)
div64 (pos a) (negsuc b) = wrap64 (pos 0 -ℤ pos (a / (b + 1)))
div64 (negsuc a) (pos b) = wrap64 (pos 0 -ℤ pos ((a + 1) / b))
div64 (negsuc a) (negsuc b) = wrap64 (pos ((a + 1) / (b + 1)))

unfoldable pub min64 : ℤ → ℤ → ℤ
min64 a b = if ltb_ℤ a b then a else b

unfoldable pub clamp_i64 : ℤ → ℤ → ℤ → ℤ
clamp_i64 v lo hi = if ltb_ℤ v lo then lo else if ltb_ℤ hi v then hi else v

pub wrap64_id : (x : ℤ) → pos_part x < 2 ^ 63 → neg_part x ≤ 2 ^ 63 → wrap64 x ≡ x
unfolding wrap64
wrap64_id x h k = ground arith

-- Between non-negative values whose result is in range there is no wrap-around.
pub add64_parts :
    (a b : ℤ)
    → neg_part a ≡ 0
    → neg_part b ≡ 0
    → pos_part a + pos_part b < 2 ^ 63
    → (neg_part (add64 a b) ≡ 0) × (pos_part (add64 a b) ≡ pos_part a + pos_part b)
unfolding add64 ◌+ℤ◌ wrap64
add64_parts a b ha hb h = ground arith

pub sub64_parts :
    (a b : ℤ)
    → neg_part a ≡ 0
    → neg_part b ≡ 0
    → pos_part a < 2 ^ 63
    → pos_part b ≤ pos_part a
    → (neg_part (sub64 a b) ≡ 0) × (pos_part (sub64 a b) + pos_part b ≡ pos_part a)
unfolding sub64 ◌-ℤ◌ wrap64
sub64_parts a b ha hb h k = ground arith

-- `a == b` on int64.
abbrev pub eq_ℤ : ℤ → ℤ → Bool
eq_ℤ (pos a) (pos b) = a == b
eq_ℤ (pos a) (negsuc b) = false
eq_ℤ (negsuc a) (pos b) = false
eq_ℤ (negsuc a) (negsuc b) = a == b

pub eq_ℤ_iff : (a b : ℤ) → (eq_ℤ a b ≡ true) ↔ (a ≡ b)
eq_ℤ_iff a b = ground arith

pub to_u64-from_u64 : (m : ℕ) → m < 2 ^ 64 → to_u64 (from_u64 m) ≡ m
to_u64-from_u64 m h = ground arith

-- The bit pattern of a sum is the sum of the bit patterns, wrapped.
pub to_u64-add64 : (a b : ℤ) → to_u64 (add64 a b) ≡ (to_u64 a + to_u64 b) % 2 ^ 64
unfolding add64 wrap64
to_u64-add64 a b = to_u64-from_u64 (to_u64 (a +ℤ b)) (omega arith) ∙ omega (arith, +ℤ_parts a b)
