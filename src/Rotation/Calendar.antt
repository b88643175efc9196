-- ===== src/Rotation/Calendar.antt =====
-- internal/rotation/grid.go and policy.go: the grid of daily or weekly handoffs in a timezone.
--
-- A loop of the code recurs here on fuel; Calendar/Walk shows that each is given enough.
pub mod Walk
pub mod Policy
pub mod Counts
mod Examples
pub mod Contract
use tokayops.Prelude.{
  String, ℕ, zero, suc, ◌+◌, ◌-◌, ◌*◌, ◌/◌, ◌%◌, Bool, true, false, not, ◌&&◌, ◌||◌, ltb, leb, ◌==◌,
  if◌then◌else◌, Option, none, some, List, [], ◌∷◌, ℤ, pos, negsuc, Bytes, codes, Result, ok, err,
  ◌>>=◌, ◌>>◌, refuse_if,
}
use tokayops.Rotation.{Cadence, RotationPolicy, RotationError, Slot, Grid}
use tokayops.Rotation.Zone.{Zone, day, wall, resolve_boundary}

abbrev pub is_digit : ℕ → Bool
is_digit b = leb b'0' b && leb b b'9'

-- `ParseHandoffTime`: the minutes since midnight.
unfoldable pub parse_handoff_time : Bytes → Option ℕ
parse_handoff_time (a ∷ b ∷ colon ∷ c ∷ d ∷ []) =
    let hours = (a - b'0') * 10 + (b - b'0') in
    let minutes = (c - b'0') * 10 + (d - b'0') in
    if not (colon == b':')
    then none
    else if not (is_digit a && is_digit b && is_digit c && is_digit d)
    then none
    else if ltb 23 hours || ltb 59 minutes
    then none
    else some (hours * 60 + minutes)
parse_handoff_time _ = none

abbrev pub is_weekday : Option ℤ → Bool
is_weekday (some (pos d)) = leb d 6
is_weekday _ = false

abbrev pub is_absent : Option ℤ → Bool
is_absent none = true
is_absent (some d) = false

abbrev day_fits : Cadence → Option ℤ → Bool
day_fits Cadence.daily d = is_absent d
day_fits Cadence.weekly d = is_weekday d
day_fits (Cadence.unlisted s) d = false

-- `RotationPolicy.Validate`
unfoldable pub validate_policy : RotationPolicy → Option ℕ
validate_policy p = elim (parse_handoff_time (codes p.handoff_time)) [
  | none ↦ none
  | some minutes ↦ if day_fits p.cadence p.handoff_day then some minutes else none
]

-- The unexported `grid`; `weekday` is none on a daily grid.
pub record Calendar : Type 0 where
  pub zone : Zone
  pub minutes : ℕ
  pub weekday : Option ℕ

abbrev pub step_of : Option ℕ → ℕ
step_of none = 1
step_of (some weekday) = 7

abbrev weekday_of : Option ℤ → Option ℕ
weekday_of (some (pos d)) = some d
weekday_of _ = none

abbrev handoff_weekday : Cadence → Option ℤ → Option ℕ
handoff_weekday Cadence.weekly d = weekday_of d
handoff_weekday _ d = none

abbrev pub resolve : Calendar → ℕ → ℕ
resolve g date = resolve_boundary g.zone g.minutes date

-- Day 0 was a Monday; Sunday is 0.
abbrev pub weekday_at : ℕ → ℕ
weekday_at date = (date + 1) % 7

abbrev pub back_to : Option ℕ → ℕ → ℕ
back_to none date = date
back_to (some weekday) date = date - (weekday_at date + 7 - weekday) % 7

-- `alignDate`
unfoldable pub align_date : Calendar → ℕ → ℕ
align_date g at = back_to g.weekday (wall g.zone at / day)

-- `boundaryCursor`
pub record Cursor : Type 0 where
  pub date : ℕ
  pub instant : ℕ

abbrev pub cursor_at : Calendar → ℕ → Cursor
cursor_at g date = record { date = date; instant = resolve g date }

unfoldable pub next_within : Calendar → ℕ → ℕ → ℕ → Cursor
next_within g zero date instant = cursor_at g (date + step_of g.weekday)
next_within g (suc rounds) date instant =
    let next = date + step_of g.weekday in
    elim (ltb instant (resolve g next)) [
      | true ↦ cursor_at g next
      | false ↦ next_within g rounds next instant
    ]

abbrev next_rounds : ℕ
next_rounds = 5

-- `nextAfter`
unfoldable pub next_after : Calendar → Cursor → Cursor
next_after g cursor = next_within g next_rounds cursor.date cursor.instant

unfoldable pub back_within : Calendar → ℕ → ℕ → ℕ → ℕ
back_within g zero at date = date
back_within g (suc rounds) at date = elim (ltb at (resolve g date)) [
  | true ↦ back_within g rounds at (date - step_of g.weekday)
  | false ↦ date
]

unfoldable pub slot_within : Calendar → ℕ → ℕ → Cursor → Cursor × Cursor
slot_within g zero at cursor = (cursor, next_after g cursor)
slot_within g (suc rounds) at cursor =
    let next = next_after g cursor in
    elim (ltb at next.instant) [ true ↦ (cursor, next) | false ↦ slot_within g rounds at next ]

abbrev back_rounds : ℕ
back_rounds = 5

-- A slot is found at most 35 days and a week before the date, and the search comes back.
abbrev slot_rounds : ℕ
slot_rounds = 60

-- The unexported `slotContaining`.
unfoldable pub cursors_around : Calendar → ℕ → Cursor × Cursor
cursors_around g at =
    slot_within g slot_rounds at (cursor_at g (back_within g back_rounds at (align_date g at)))

unfoldable pub slot_containing : Calendar → ℕ → Slot
slot_containing g at =
    let found = cursors_around g at in record { start = found.0.instant; end = found.1.instant }

unfoldable pub next_boundary : Calendar → ℕ → ℕ
next_boundary g after = (cursors_around g after).1.instant

-- The boundaries from a cursor up to an instant: how many, and the last.
unfoldable pub count_within : Calendar → ℕ → ℕ → Cursor → ℕ × ℕ
count_within g zero target cursor = (0, cursor.instant)
count_within g (suc rounds) target cursor = elim (ltb cursor.instant target) [
  | true ↦
      let counted = count_within g rounds target (next_after g cursor) in (suc counted.0, counted.1)
  | false ↦ (0, cursor.instant)
]

abbrev landed : ℕ → ℕ × ℕ → Result RotationError ℕ
landed target counted =
    if counted.1 == target then ok counted.0 else err (RotationError.off_grid target)

abbrev count_to : Calendar → Cursor → ℕ → Result RotationError ℕ
count_to g cursor target = landed target (count_within g (target / day + 3) target cursor)

abbrev minus : ℕ → ℤ
minus zero = pos 0
minus (suc n) = negsuc n

-- `SlotsBetween`
unfoldable pub slots_between : Calendar → ℕ → ℕ → Result RotationError ℤ
slots_between g start target = do
  let from = (cursors_around g start).0
  refuse_if (not (from.instant == start)) (RotationError.off_grid start)
  let to = (cursors_around g target).0
  refuse_if (not (to.instant == target)) (RotationError.off_grid target)
  if start == target
      then ok (pos 0)
      else if ltb to.instant from.instant
      then (count_to g to from.instant >>= λ n. ok (minus n))
      else (count_to g from to.instant >>= λ n. ok (pos n))

unfoldable pub overlapping_within : Calendar → ℕ → ℕ → Cursor → Cursor → List Slot
overlapping_within g zero limit start end = []
overlapping_within g (suc rounds) limit start end = elim (ltb start.instant limit) [
  | true ↦
      record { start = start.instant; end = end.instant }
      ∷ overlapping_within g rounds limit end (next_after g end)
  | false ↦ []
]

-- `SlotsOverlapping`
unfoldable pub slots_overlapping : Calendar → ℕ → ℕ → List Slot
slots_overlapping g from limit =
    let found = cursors_around g from in
    if ltb from limit then overlapping_within g (limit / day + 3) limit found.0 found.1 else []

-- The calendar as the interface that positions are asked of.
unfoldable pub grid_of : Calendar → Grid
grid_of g = record { slot_containing = slot_containing g; slots_between = slots_between g }

-- `NewGrid`; the lookup of a timezone is the library's.
unfoldable pub new_calendar :
    (String → Option Zone) → String → RotationPolicy → Result RotationError Calendar
new_calendar load timezone p = elim (load timezone) [
  | none ↦ err (RotationError.no_grid timezone)
  | some zone ↦ elim (validate_policy p) [
    | none ↦ err (RotationError.no_grid timezone)
    | some minutes ↦ ok (record {
      zone = zone;
      minutes = minutes;
      weekday = handoff_weekday p.cadence p.handoff_day;
    })
  ]
]
