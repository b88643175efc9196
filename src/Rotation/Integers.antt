-- ===== src/Rotation/Integers.antt =====
-- Signed counts of slots: Go's `int` where it may be negative, and `floorMod` of position.go.
use tokayops.Prelude.{
  ℕ, suc, ◌+◌, ◌-◌, ◌%◌, ◌<◌, ◌≡◌, ltb, ◌==◌, if◌then◌else◌, arith, ℤ, pos, negsuc,
}

-- A position moved by a signed number of slots.
unfoldable pub moved_by : ℕ → ℤ → ℤ
moved_by p (pos n) = pos (p + n)
moved_by p (negsuc n) = if ltb n p then pos (p - suc n) else negsuc (n - p)

-- Go's `a % n` has the sign of `a`: of a negative `a` it is minus the remainder of its size.
unfoldable pub floor_mod : ℤ → ℕ → ℕ
floor_mod (pos a) n = a % n
floor_mod (negsuc a) n = let r = suc a % n in if r == 0 then 0 else n - r

pub floor_mod_bound : (a : ℤ) (n : ℕ) → 0 < n → floor_mod a n < n
unfolding floor_mod
floor_mod_bound (pos a) n h = omega arith
floor_mod_bound (negsuc a) n h = ground arith

pub floor_mod_stay : (p n : ℕ) → p < n → floor_mod (moved_by p (pos 0)) n ≡ p
unfolding floor_mod moved_by
floor_mod_stay p n h = grind arith
