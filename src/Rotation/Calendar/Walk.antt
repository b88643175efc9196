-- ===== src/Rotation/Calendar/Walk.antt =====
-- The loops of internal/rotation/grid.go over the dates of a grid: each finds what it looks for.
use tokayops.Prelude.{
  ℕ, zero, suc, ◌+◌, ◌-◌, ◌*◌, ◌/◌, ◌%◌, ◌≤◌, ◌<◌, ltb, Option, none, some, ◌≡◌, refl, sym, subst,
  inl, inr, Bool-cases, arith,
}
use tokayops.Rotation.Zone.{day, wall, IsZone}
use tokayops.Rotation.Zone.Bounds.{Around, resolve_boundary-Around}
use tokayops.Rotation.Calendar.{
  Calendar, Cursor, resolve, step_of, cursor_at, next_within, next_after, back_within, slot_within,
  cursors_around, align_date, back_to,
}

-- Dates of one grid: a week apart on a weekly one.
abbrev pub Aligned : Option ℕ → ℕ → ℕ → Type 0
Aligned none a b = Unit
Aligned (some weekday) a b = a % 7 ≡ b % 7

Aligned-refl : (w : Option ℕ) (a : ℕ) → Aligned w a a
Aligned-refl none a = tt
Aligned-refl (some d) a = refl

pub Aligned-trans : (w : Option ℕ) (a b c : ℕ) → Aligned w a b → Aligned w b c → Aligned w a c
Aligned-trans none a b c h k = tt
Aligned-trans (some d) a b c h k = omega arith

pub Aligned-sym : (w : Option ℕ) (a b : ℕ) → Aligned w a b → Aligned w b a
Aligned-sym none a b h = tt
Aligned-sym (some d) a b h = omega arith

Aligned-on : (w : Option ℕ) (a : ℕ) → Aligned w (a + step_of w) a
Aligned-on none a = tt
Aligned-on (some d) a = omega arith

Aligned-back : (w : Option ℕ) (a : ℕ) → step_of w ≤ a → Aligned w (a - step_of w) a
Aligned-back none a h = tt
Aligned-back (some d) a h = omega arith

-- A later date of a grid is a step later at least.
pub Aligned-gap : (w : Option ℕ) (a b : ℕ) → Aligned w a b → a < b → a + step_of w ≤ b
Aligned-gap none a b h lt = omega arith
Aligned-gap (some d) a b h lt = omega arith

pub step_bounds : (w : Option ℕ) → (1 ≤ step_of w) × (step_of w ≤ 7)
step_bounds none = (omega arith, omega arith)
step_bounds (some d) = (omega arith, omega arith)

-- The next boundary after an instant: the step before it leads to no later instant.
abbrev pub IsNext : Calendar → ℕ → ℕ → Cursor → Type 0
IsNext g date instant next =
    (next.instant ≡ resolve g next.date)
    × (instant < next.instant)
    × ((skipped : ℕ) × (next.date ≡ skipped + step_of g.weekday)
        × (resolve g skipped ≤ instant)
        × (date ≤ skipped)
        × Aligned g.weekday skipped date)

pub IsNext-Aligned :
    (g : Calendar) (date instant : ℕ) (next : Cursor)
    → IsNext g date instant next
    → Aligned g.weekday next.date date
IsNext-Aligned g date instant next (_, _, (skipped, led, _, _, aligned)) =
    Aligned-trans g.weekday next.date skipped date
      (subst (λ at. Aligned g.weekday at skipped) (sym led) (Aligned-on g.weekday skipped)) aligned

module _ (g : Calendar) (around : (date : ℕ) → Around date (resolve g date)) where
  next_within-IsNext :
      (rounds date instant : ℕ)
      → resolve g date ≤ instant
      → instant + day < (date + suc rounds) * day
      → IsNext g date instant (next_within g rounds date instant)
  unfolding next_within
  next_within-IsNext zero date instant reached near =
      let step = step_bounds g.weekday in
      let place = around (date + step_of g.weekday) in
      (
        refl,
        omega (arith, step, place),
        (date, refl, reached, omega arith, Aligned-refl g.weekday date),
      )
  next_within-IsNext (suc rounds) date instant reached near =
      let next = date + step_of g.weekday in
      let step = step_bounds g.weekday in
      elim (Bool-cases (ltb instant (resolve g next))) [
        | inl later ↦
            let stopped : cursor_at g next ≡ next_within g (suc rounds) date instant =
              ground (arith, later) in
            subst (IsNext g date instant) stopped (
              refl,
              ground (arith, later),
              (date, refl, reached, omega arith, Aligned-refl g.weekday date),
            )
        | inr early ↦
            let went_on : next_within g rounds next instant
                ≡ next_within g (suc rounds) date instant =
              ground (arith, early) in
            let (at, after, (skipped, led, low, far, aligned)) =
              next_within-IsNext rounds next instant (ground (arith, early))
                (omega (arith, step, near)) in
            subst (IsNext g date instant) went_on (
              at,
              after,
              (
                skipped,
                led,
                low,
                omega arith,
                Aligned-trans g.weekday skipped next date aligned (Aligned-on g.weekday date),
              ),
            )
      ]

  -- `nextAfter` from a boundary.
  pub next_after-IsNext :
      (date : ℕ) → IsNext g date (resolve g date) (next_after g (cursor_at g date))
  unfolding next_after
  next_after-IsNext date =
      let place = around date in
      next_within-IsNext 5 date (resolve g date) (omega arith) (omega (arith, place))

  back_within-reaches :
      (rounds at date : ℕ)
      → date * day + 4 * day ≤ at + rounds * day
      → 7 * rounds ≤ date
      → (resolve g (back_within g rounds at date) ≤ at)
        × Aligned g.weekday (back_within g rounds at date) date
        × (date ≤ back_within g rounds at date + 7 * rounds)
  unfolding back_within
  back_within-reaches zero at date near room =
      let place = around date in (omega (arith, place), Aligned-refl g.weekday date, omega arith)
  back_within-reaches (suc rounds) at date near room =
      let step = step_bounds g.weekday in
      let earlier = date - step_of g.weekday in
      elim (Bool-cases (ltb at (resolve g date))) [
        | inl later ↦
            let went_on : back_within g rounds at earlier ≡ back_within g (suc rounds) at date =
              ground (arith, later) in
            let (reached, aligned, close) =
              back_within-reaches rounds at earlier (omega (arith, step, near))
                (omega (arith, step)) in
            subst
              (λ found.
                (resolve g found ≤ at)
                × Aligned g.weekday found date
                × (date ≤ found + 7 * suc rounds))
              went_on
              (
                reached,
                Aligned-trans g.weekday _ earlier date aligned
                    (Aligned-back g.weekday date (omega (arith, step))),
                omega (arith, step),
              )
        | inr reached ↦
            let stopped : date ≡ back_within g (suc rounds) at date = ground (arith, reached) in
            subst
              (λ found.
                (resolve g found ≤ at)
                × Aligned g.weekday found date
                × (date ≤ found + 7 * suc rounds))
              stopped (ground (arith, reached), Aligned-refl g.weekday date, omega arith)
      ]

-- The cursors of a slot around an instant.
abbrev pub IsAround : Calendar → ℕ → ℕ → Cursor × Cursor → Type 0
IsAround g at date found =
    (found.0.instant ≡ resolve g found.0.date)
    × (found.0.instant ≤ at)
    × (at < found.1.instant)
    × IsNext g found.0.date found.0.instant found.1
    × Aligned g.weekday found.0.date date

module _ (g : Calendar) (around : (date : ℕ) → Around date (resolve g date)) where
  slot_within-IsAround :
      (rounds at date : ℕ)
      → resolve g date ≤ at
      → at + day < (date + suc rounds) * day
      → IsAround g at date (slot_within g rounds at (cursor_at g date))
  unfolding slot_within
  slot_within-IsAround zero at date reached near =
      let next = next_after-IsNext g around date in
      let place = around (next_after g (cursor_at g date)).date in
      let step = step_bounds g.weekday in
      (refl, reached, ground (arith, next, place, step, near), next, Aligned-refl g.weekday date)
  slot_within-IsAround (suc rounds) at date reached near =
      let next = next_after-IsNext g around date in
      let after = next_after g (cursor_at g date) in
      let step = step_bounds g.weekday in
      elim (Bool-cases (ltb at after.instant)) [
        | inl later ↦
            let stopped : (cursor_at g date, after)
                ≡ slot_within g (suc rounds) at (cursor_at g date) =
              ground (arith, later) in
            subst (IsAround g at date) stopped
              (refl, reached, ground (arith, later), next, Aligned-refl g.weekday date)
        | inr early ↦
            let same : cursor_at g after.date ≡ after = ground (arith, next) in
            let went_on : slot_within g rounds at (cursor_at g after.date)
                ≡ slot_within g (suc rounds) at (cursor_at g date) =
              ground (arith, early, same) in
            let (at_start, low, high, follows, aligned) =
              slot_within-IsAround rounds at after.date (ground (arith, early, next))
                (ground (arith, next, step, near)) in
            subst (IsAround g at date) went_on (
              at_start,
              low,
              high,
              follows,
              Aligned-trans g.weekday _ after.date date aligned
                  (IsNext-Aligned g date _ after next),
            )
      ]

-- From fifty days after the origin on, the search for a slot stays behind the origin.
abbrev pub origin_margin : ℕ
origin_margin = 50 * day

abbrev pub IsWeekday : Option ℕ → Type 0
IsWeekday none = Unit
IsWeekday (some weekday) = weekday < 7

align_date_close :
    (g : Calendar) (at : ℕ)
    → IsZone g.zone
    → (align_date g at * day ≤ at + day) × (at < (align_date g at + 9) * day)
unfolding align_date
align_date_close g at is =
    let offset = is.within at in
    close g.weekday (wall g.zone at / day) (omega (arith, offset)) (omega (arith, offset))
  where
    close :
        (w : Option ℕ) (date : ℕ)
        → date * day ≤ at + day
        → at < (date + 2) * day
        → (back_to w date * day ≤ at + day) × (at < (back_to w date + 9) * day)
    close none date low high = (omega arith, omega arith)
    close (some weekday) date low high = (omega arith, omega arith)

pub align_date_on :
    (g : Calendar) (at later : ℕ)
    → IsZone g.zone
    → IsWeekday g.weekday
    → origin_margin ≤ at
    → origin_margin ≤ later
    → Aligned g.weekday (align_date g at) (align_date g later)
unfolding align_date
align_date_on g at later is weekday far far_later =
    let offset = is.within at in
    let offset_later = is.within later in
    on g.weekday (wall g.zone at / day) (wall g.zone later / day) weekday (omega (arith, offset))
      (omega (arith, offset_later))
  where
    on :
        (w : Option ℕ) (a b : ℕ)
        → IsWeekday w
        → 7 ≤ a
        → 7 ≤ b
        → Aligned w (back_to w a) (back_to w b)
    on none a b day_fits ha hb = tt
    on (some weekday) a b day_fits ha hb = omega arith

-- The search of `slotContaining` finds the slot around an instant: its loops have enough rounds.
pub cursors_around-IsAround :
    (g : Calendar) (at : ℕ)
    → IsZone g.zone
    → g.minutes < 1440
    → origin_margin ≤ at
    → (date : ℕ) × Aligned g.weekday date (align_date g at)
      × IsAround g at date (cursors_around g at)
unfolding cursors_around
cursors_around-IsAround g at is minutes far =
    let around : (date : ℕ) → Around date (resolve g date) =
      λ date. resolve_boundary-Around g.zone g.minutes date is minutes in
    let (low, high) = align_date_close g at is in
    let (reached, aligned, close) =
      back_within-reaches g around 5 at (align_date g at) (omega (arith, low))
        (omega (arith, high, far)) in
    let date = back_within g 5 at (align_date g at) in
    (date, aligned, slot_within-IsAround g around 60 at date reached (omega (arith, high, close)))
