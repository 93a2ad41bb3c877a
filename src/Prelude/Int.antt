-- ===== src/Prelude/Int.antt =====
-- Signed integers, for the `int` and `time.Duration` settings that may be zero or negative.
use Prim.Native.Nat.{ℕ, compare, Ordering}
use mathlib.Core.Bool.{Bool, true, false}

-- `negsuc n` is -(n + 1).
pub data ℤ : Type 0 where
  pos : ℕ → ℤ
  negsuc : ℕ → ℤ

-- `limit <= 0`.
abbrev pub is_nonpositive : ℤ → Bool
is_nonpositive (pos n) = elim (compare 0 n) [ Ordering.lt ↦ false | _ ↦ true ]
is_nonpositive (negsuc n) = true

-- `used >= limit`, for a counter that is never negative.
abbrev pub reaches : ℕ → ℤ → Bool
reaches used (pos n) = elim (compare n used) [ Ordering.gt ↦ false | _ ↦ true ]
reaches used (negsuc n) = true

-- The natural number that a limit allows: zero where it is not positive.
abbrev pub allowance : ℤ → ℕ
allowance (pos n) = n
allowance (negsuc n) = 0
