-- ===== src/Prelude/Integers.antt =====
-- Go's `int` and `int64` where they may be negative.
use tokayops.Prelude.Tests.{◌==◌}
use Prim.Native.Nat.{ℕ, ◌^◌, ◌<◌}
use mathlib.Core.Bool.{Bool, true, false}

-- `negsuc n` is -(n + 1).
pub data ℤ : Type 0 where
  pos : ℕ → ℤ
  negsuc : ℕ → ℤ

abbrev pub same_int : ℤ → ℤ → Bool
same_int (pos a) (pos b) = a == b
same_int (negsuc a) (negsuc b) = a == b
same_int _ _ = false

abbrev pub is_negative : ℤ → Bool
is_negative (pos a) = false
is_negative (negsuc a) = true

-- What an int64 holds.
abbrev pub IsInt64 : ℤ → Type 0
IsInt64 (pos a) = a < 2 ^ 63
IsInt64 (negsuc a) = a < 2 ^ 63
