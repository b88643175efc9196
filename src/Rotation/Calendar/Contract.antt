-- ===== src/Rotation/Calendar/Contract.antt =====
-- What the comment on `Grid` in internal/rotation/grid.go promises: the slots of a grid lie one behind
-- the other, and a slot is found at every instant of it.
use tokayops.Prelude.{
  ℕ, zero, suc, ◌+◌, ◌*◌, ◌/◌, ◌≤◌, ◌<◌, not, ltb, ◌==◌, if◌then◌else◌, List, [], ◌∷◌, ℤ, pos,
  negsuc, Result, ok, err, ◌>>=◌, refuse_if-eq-ok, ◌≡◌, refl, sym, subst, inl, inr, Bool-cases,
  arith,
}
use tokayops.Rotation.{Slot, RotationError}
use tokayops.Rotation.Zone.{day, IsZone}
use tokayops.Rotation.Zone.Bounds.{Around, resolve_boundary-Around}
use tokayops.Rotation.Calendar.{
  Calendar, Cursor, resolve, cursor_at, next_after, cursors_around, slot_containing, align_date,
  slots_between, count_to, minus, overlapping_within, slots_overlapping, next_boundary,
}
use tokayops.Rotation.Calendar.Walk.{
  step_bounds, Aligned, Aligned-trans, Aligned-sym, Aligned-gap, IsNext, IsNext-Aligned,
  next_after-IsNext, IsWeekday, origin_margin, align_date_on, cursors_around-IsAround,
}

-- A timezone and a time of day on which the boundary of a date is no later than that of the next date;
-- two dates may share one, where a timezone skips a date.
pub record IsCalendar (g : Calendar) : Type 0 where
  pub zone : IsZone g.zone
  pub time : g.minutes < 1440
  pub weekday : IsWeekday g.weekday
  pub ordered : (date : ℕ) → resolve g date ≤ resolve g (suc date)

pub resolve_mono : (g : Calendar) → IsCalendar g → (a b : ℕ) → a ≤ b → resolve g a ≤ resolve g b
resolve_mono g is zero zero h = omega arith
resolve_mono g is (suc a) zero h = absurd (omega arith)
resolve_mono g is a (suc b) h = elim (Bool-cases (a == suc b)) [
  | inl same ↦
      let equal : a ≡ suc b = ground (arith, same) in
      subst (λ d. resolve g a ≤ resolve g d) equal (omega arith)
  | inr other ↦
      let before = resolve_mono g is a b (ground (arith, other)) in
      omega (arith, before, is.ordered b)
]

-- Two searches of one grid that bracket one instant found one slot.
brackets_agree :
    (g : Calendar) (c d : Cursor) (c' d' : Cursor) (at : ℕ)
    → IsCalendar g
    → c.instant ≡ resolve g c.date
    → d.instant ≡ resolve g d.date
    → (c.instant ≤ at) × (at < c'.instant)
    → (d.instant ≤ at) × (at < d'.instant)
    → IsNext g c.date c.instant c'
    → IsNext g d.date d.instant d'
    → Aligned g.weekday c'.date d'.date
    → (c.instant ≡ d.instant) × (c'.instant ≡ d'.instant)
brackets_agree g c d c' d' at is at_c at_d (low_c, high_c) (low_d, high_d)
      (at_c', after_c, (p, led_p, low_p, from_p, _)) (at_d', after_d, (q, led_q, low_q, from_q, _))
      aligned =
    let gap = Aligned-gap g.weekday c'.date d'.date aligned in
    let gap' = Aligned-gap g.weekday d'.date c'.date (Aligned-sym g.weekday _ _ aligned) in
    let skipped_c = resolve_mono g is c'.date q in
    let skipped_d = resolve_mono g is d'.date p in
    let held_c = resolve_mono g is c.date p in
    let held_d = resolve_mono g is d.date q in
    let dates : c'.date ≡ d'.date = ground arith in
    let steps : p ≡ q = omega arith in (ground arith, cc)

-- The slot that is found around an instant holds it: it starts no later, and ends after it.
pub slot_containing-holds :
    (g : Calendar) (at : ℕ)
    → IsCalendar g
    → origin_margin ≤ at
    → ((slot_containing g at).start ≤ at) × (at < (slot_containing g at).end)
unfolding slot_containing
slot_containing-holds g at is far =
    let (_, _, (_, low, high, _, _)) = cursors_around-IsAround g at is.zone is.time far in
    (low, high)

-- One slot is found at every instant of it, its own start included, at which it begins: so the slots of
-- a grid do not overlap.
pub slot_containing-same :
    (g : Calendar) (at other : ℕ)
    → IsCalendar g
    → origin_margin ≤ at
    → origin_margin ≤ other
    → (slot_containing g at).start ≤ other
    → other < (slot_containing g at).end
    → slot_containing g other ≡ slot_containing g at
unfolding slot_containing
slot_containing-same g at other is far far_other low high =
    let (date, on_grid, (at_c, low_c, high_c, next_c, aligned_c)) =
      cursors_around-IsAround g at is.zone is.time far in
    let (date', on_grid', (at_d, low_d, high_d, next_d, aligned_d)) =
      cursors_around-IsAround g other is.zone is.time far_other in
    let c = (cursors_around g at).0 in
    let c' = (cursors_around g at).1 in
    let d = (cursors_around g other).0 in
    let d' = (cursors_around g other).1 in
    let w = g.weekday in
    let from_c = Aligned-trans w c.date date _ aligned_c on_grid in
    let from_d = Aligned-trans w d.date date' _ aligned_d on_grid' in
    let grid = align_date_on g at other is.zone is.weekday far far_other in
    let c_on_d =
      Aligned-trans w c.date _ d.date (Aligned-trans w c.date _ _ from_c grid)
        (Aligned-sym w d.date _ from_d) in
    let aligned = Aligned-trans w c'.date c.date d'.date (IsNext-Aligned g _ _ c' next_c) (
      Aligned-trans w c.date d.date d'.date c_on_d
        (Aligned-sym w d'.date d.date (IsNext-Aligned g _ _ d' next_d))) in
    let (starts, ends) =
      brackets_agree g c d c' d' other is at_c at_d (low, high) (low_d, high_d) next_c next_d
        aligned in
    (cc)

-- Each slot begins where the one before it ends, the first at `at`, and the last ends at the limit or
-- after it.
abbrev pub Tiles : ℕ → ℕ → List Slot → Type 0
Tiles at limit [] = limit ≤ at
Tiles at limit (slot ∷ slots) =
    (slot.start ≡ at) × (slot.start < slot.end) × (slot.start < limit) × Tiles slot.end limit slots

overlapping_within-Tiles :
    (g : Calendar) (rounds limit : ℕ) (start end : Cursor)
    → ((date : ℕ) → Around date (resolve g date))
    → start.instant ≡ resolve g start.date
    → IsNext g start.date start.instant end
    → limit + day ≤ (start.date + rounds) * day
    → Tiles start.instant limit (overlapping_within g rounds limit start end)
unfolding overlapping_within
overlapping_within-Tiles g zero limit start end around at_start next near =
    let place = around start.date in omega (arith, place, at_start)
overlapping_within-Tiles g (suc rounds) limit start end around at_start next near =
    elim (Bool-cases (ltb start.instant limit)) [
      | inl inside ↦
          let same : cursor_at g end.date ≡ end = ground (arith, next) in
          let after =
            subst (λ e. IsNext g end.date (resolve g end.date) (next_after g e)) same
              (next_after-IsNext g around end.date) in
          let next_after_end =
            subst (λ t. IsNext g end.date t (next_after g end)) (sym next.0) after in
          let step = step_bounds g.weekday in
          let later : start.date + 1 ≤ end.date = ground (arith, next, step) in
          let rest =
            overlapping_within-Tiles g rounds limit end (next_after g end) around next.0
              next_after_end (omega (arith, later, near)) in
          let went_on : record { start = start.instant; end = end.instant }
                ∷ overlapping_within g rounds limit end (next_after g end)
              ≡ overlapping_within g (suc rounds) limit start end =
            ground (arith, inside) in
          subst (Tiles start.instant limit) went_on (refl, next.1, ground (arith, inside), rest)
      | inr outside ↦
          let stopped : [] ≡ overlapping_within g (suc rounds) limit start end =
            ground (arith, outside) in
          subst (Tiles start.instant limit) stopped (ground (arith, outside))
    ]

-- The slots that overlap an interval tile it: the first holds its beginning, each begins where the one
-- before it ends, and the last reaches its end.
pub slots_overlapping-Tiles :
    (g : Calendar) (from limit : ℕ)
    → IsCalendar g
    → origin_margin ≤ from
    → from < limit
    → ((slot_containing g from).start ≤ from)
      × Tiles (slot_containing g from).start limit (slots_overlapping g from limit)
unfolding slots_overlapping slot_containing
slots_overlapping-Tiles g from limit is far later =
    let (_, _, (at_c, low, _, next, _)) = cursors_around-IsAround g from is.zone is.time far in
    let around : (date : ℕ) → Around date (resolve g date) =
      λ date. resolve_boundary-Around g.zone g.minutes date is.zone is.time in
    let found = cursors_around g from in
    let tiles =
      overlapping_within-Tiles g (limit / day + 3) limit found.0 found.1 around at_c next
        (omega arith) in
    let taken : overlapping_within g (limit / day + 3) limit found.0 found.1 ≡ (
        if ltb from limit
        then overlapping_within g (limit / day + 3) limit found.0 found.1
        else []) =
      ground (arith, later) in
    (low, subst (Tiles found.0.instant limit) taken tiles)

-- A boundary of the grid begins the slot that is found at it.
boundary_begins :
    (g : Calendar) (boundary : ℕ) (date : ℕ)
    → IsCalendar g
    → origin_margin ≤ boundary
    → boundary ≡ resolve g date
    → Aligned g.weekday date (align_date g boundary)
    → (slot_containing g boundary).start ≡ boundary
unfolding slot_containing
boundary_begins g boundary date is far at on_grid =
    let (
      date',
      on_grid',
      (at_d, low, high, (at_d', after, (q, led, low_q, from_q, aligned_q)), aligned),
    ) =
      cursors_around-IsAround g boundary is.zone is.time far in
    let d = (cursors_around g boundary).0 in
    let d' = (cursors_around g boundary).1 in
    let w = g.weekday in
    let q_on_grid =
      Aligned-trans w q d.date _ aligned_q (Aligned-trans w d.date date' _ aligned on_grid') in
    let same_grid = Aligned-trans w q _ date q_on_grid (Aligned-sym w date _ on_grid) in
    let gap = Aligned-gap w q date same_grid in
    let held = resolve_mono g is date q in
    let skipped = resolve_mono g is d'.date date in ground arith

-- `NextBoundary` gives the strictly next boundary: it is later than the instant, the slot of the instant
-- ends there, and the next slot begins there.
pub next_boundary-begins :
    (g : Calendar) (at : ℕ)
    → IsCalendar g
    → origin_margin ≤ at
    → (at < next_boundary g at)
      × (next_boundary g at ≡ (slot_containing g at).end)
      × ((slot_containing g (next_boundary g at)).start ≡ next_boundary g at)
unfolding next_boundary
next_boundary-begins g at is far =
    let (date, on_grid, (at_c, low, high, next, aligned)) =
      cursors_around-IsAround g at is.zone is.time far in
    let c = (cursors_around g at).0 in
    let c' = (cursors_around g at).1 in
    let w = g.weekday in
    let on =
      Aligned-trans w c'.date c.date _ (IsNext-Aligned g _ _ c' next)
        (Aligned-trans w c.date date _ aligned on_grid) in
    let later : origin_margin ≤ c'.instant = omega (arith, high, far) in
    let grid = align_date_on g at c'.instant is.zone is.weekday far later in
    let begins =
      boundary_begins g c'.instant c'.date is later next.0 (Aligned-trans w c'.date _ _ on grid) in
    (high, unfold slot_containing in refl, begins)

abbrev pub negated : ℤ → ℤ
negated (pos zero) = pos 0
negated (pos (suc n)) = negsuc n
negated (negsuc n) = pos (suc n)

exchanged :
    (s t f u : ℕ) (x y : Result RotationError ℕ) {n : ℤ}
    → f ≡ s
    → u ≡ t
    → (if s == t
        then ok (pos 0)
        else if ltb u f
        then (x >>= λ k. ok (minus k))
        else (y >>= λ k. ok (pos k)))
      ≡ ok n
    → (if t == s
        then ok (pos 0)
        else if ltb f u
        then (y >>= λ k. ok (minus k))
        else (x >>= λ k. ok (pos k)))
      ≡ ok (negated n)
exchanged s t f u (ok x) (ok y) at_s at_t h = ground arith
exchanged s t f u (ok x) (err y) at_s at_t h = ground arith
exchanged s t f u (err x) (ok y) at_s at_t h = ground arith
exchanged s t f u (err x) (err y) at_s at_t h = ground arith

-- The count of slots between two boundaries is signed: with the boundaries exchanged it is the negative.
pub slots_between-negated :
    (g : Calendar) (start target : ℕ) (n : ℤ)
    → slots_between g start target ≡ ok n
    → slots_between g target start ≡ ok (negated n)
unfolding slots_between
slots_between-negated g start target n h =
    let from = (cursors_around g start).0 in
    let to = (cursors_around g target).0 in
    let (at_start, h1) = refuse_if-eq-ok (not (from.instant == start)) _ _ h in
    let (at_target, h2) = refuse_if-eq-ok (not (to.instant == target)) _ _ h1 in
    let same_start : from.instant ≡ start = ground (arith, at_start) in
    let same_target : to.instant ≡ target = ground (arith, at_target) in
    let back =
      exchanged start target from.instant to.instant (count_to g to from.instant)
        (count_to g from to.instant) same_start same_target h2 in
    rw (at_start, at_target) back
