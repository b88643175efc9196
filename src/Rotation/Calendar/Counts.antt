-- ===== src/Rotation/Calendar/Counts.antt =====
-- `SlotsBetween` of internal/rotation/grid.go walks from one boundary to the other and never past it.
use tokayops.Prelude.{
  ℕ, zero, suc, ◌+◌, ◌*◌, ◌/◌, ◌≤◌, false, not, ltb, ◌==◌, if◌then◌else◌, ℤ, pos, Result, ok, ◌>>=◌,
  ◌≡◌, inl, inr, Bool-cases, arith,
}
use tokayops.Rotation.{RotationError}
use tokayops.Rotation.Zone.{day}
use tokayops.Rotation.Zone.Bounds.{Around, resolve_boundary-Around}
use tokayops.Rotation.Calendar.{
  Calendar, Cursor, resolve, cursor_at, next_after, cursors_around, slot_containing, slots_between,
  count_to, count_within, minus,
}
use tokayops.Rotation.Calendar.Walk.{
  step_bounds, Aligned, Aligned-trans, Aligned-sym, Aligned-gap, IsNext-Aligned, next_after-IsNext,
  origin_margin, align_date_on, cursors_around-IsAround,
}
use tokayops.Rotation.Calendar.Contract.{IsCalendar, resolve_mono}

count_within-lands :
    (g : Calendar) (rounds date target_date : ℕ)
    → IsCalendar g
    → Aligned g.weekday date target_date
    → resolve g date ≤ resolve g target_date
    → resolve g target_date + day ≤ (date + rounds) * day
    → (count_within g rounds (resolve g target_date) (cursor_at g date)).1 ≡ resolve g target_date
unfolding count_within
count_within-lands g zero date target_date is aligned low near =
    let place = resolve_boundary-Around g.zone g.minutes date is.zone is.time in
    omega (arith, place)
count_within-lands g (suc rounds) date target_date is aligned low near =
    let around : (date : ℕ) → Around date (resolve g date) =
      λ date. resolve_boundary-Around g.zone g.minutes date is.zone is.time in
    let target = resolve g target_date in
    let w = g.weekday in
    let next = next_after g (cursor_at g date) in
    elim (Bool-cases (ltb (resolve g date) target)) [
      | inl before ↦
          let (at_next, after, (skipped, led, low_skipped, far, aligned_skipped)) =
            next_after-IsNext g around date in
          let step = step_bounds w in
          let same : cursor_at g next.date ≡ next = ground (arith, at_next) in
          let gap =
            Aligned-gap w skipped target_date
              (Aligned-trans w skipped date target_date aligned_skipped aligned) in
          let held = resolve_mono g is target_date skipped in
          let reached = resolve_mono g is next.date target_date in
          let next_aligned =
            Aligned-trans w next.date date target_date
              (IsNext-Aligned g date _ next
                (at_next, after, (skipped, led, low_skipped, far, aligned_skipped)))
              aligned in
          let rest =
            count_within-lands g rounds next.date target_date is next_aligned
              (ground (arith, before)) (omega (arith, led, far, step, near)) in
          ground (arith, before, rest, same)
      | inr landed ↦ ground (arith, landed, low)
    ]

-- The walk from one boundary to a later one ends on it.
count_to-lands :
    (g : Calendar) (c d : Cursor)
    → IsCalendar g
    → c.instant ≡ resolve g c.date
    → d.instant ≡ resolve g d.date
    → Aligned g.weekday c.date d.date
    → c.instant ≤ d.instant
    → (n : ℕ) × (count_to g c d.instant ≡ ok n)
count_to-lands g c d is at_c at_d aligned low =
    let same_c : cursor_at g c.date ≡ c = ground (arith, at_c) in
    let lands =
      count_within-lands g (resolve g d.date / day + 3) c.date d.date is aligned
        (omega (arith, at_c, at_d, low)) (omega arith) in
    let counted = count_within g (d.instant / day + 3) d.instant c in
    let here : counted.1 ≡ d.instant = cc (same_c, at_d, lands) in (counted.0, ground (arith, here))

chosen :
    (s t f u : ℕ) (x y : Result RotationError ℕ)
    → f ≡ s
    → u ≡ t
    → (u ≤ f → (n : ℕ) × (x ≡ ok n))
    → (f ≤ u → (n : ℕ) × (y ≡ ok n))
    → (n : ℤ) × ((if s == t
          then ok (pos 0)
          else if ltb u f
          then (x >>= λ k. ok (minus k))
          else (y >>= λ k. ok (pos k)))
        ≡ ok n)
chosen s t f u x y at_s at_t back ahead = elim (Bool-cases (s == t)) [
  | inl same ↦ (pos 0, ground (arith, same))
  | inr other ↦ elim (Bool-cases (ltb u f)) [
    | inl behind ↦
        let (n, counted) = back (ground (arith, behind)) in
        (minus n, ground (arith, other, behind, counted))
    | inr before ↦
        let (n, counted) = ahead (ground (arith, before)) in
        (pos n, ground (arith, other, before, counted))
  ]
]

-- Between two boundaries of a grid the slots are counted: the walk never passes its end, so the error
-- that the code keeps for that case is not returned.
pub slots_between_total :
    (g : Calendar) (start target : ℕ)
    → IsCalendar g
    → origin_margin ≤ start
    → origin_margin ≤ target
    → (slot_containing g start).start ≡ start
    → (slot_containing g target).start ≡ target
    → (n : ℤ) × (slots_between g start target ≡ ok n)
unfolding slots_between slot_containing
slots_between_total g start target is far far_target at_start at_target =
    let (date, on_grid, (at_c, _, _, _, aligned)) =
      cursors_around-IsAround g start is.zone is.time far in
    let (date', on_grid', (at_d, _, _, _, aligned')) =
      cursors_around-IsAround g target is.zone is.time far_target in
    let c = (cursors_around g start).0 in
    let d = (cursors_around g target).0 in
    let w = g.weekday in
    let grid = align_date_on g start target is.zone is.weekday far far_target in
    let from_c = Aligned-trans w c.date date _ aligned on_grid in
    let from_d = Aligned-trans w d.date date' _ aligned' on_grid' in
    let c_on_d =
      Aligned-trans w c.date _ d.date (Aligned-trans w c.date _ _ from_c grid)
        (Aligned-sym w d.date _ from_d) in
    let (n, counted) =
      chosen start target c.instant d.instant (count_to g d c.instant) (count_to g c d.instant)
        at_start at_target (count_to-lands g d c is at_d at_c (Aligned-sym w c.date d.date c_on_d))
        (count_to-lands g c d is at_c at_d c_on_d) in
    let open_start : not (c.instant == start) ≡ false = ground (arith, at_start) in
    let open_target : not (d.instant == target) ≡ false = ground (arith, at_target) in
    (n, rw (open_start, open_target) counted)
