-- ===== src/Rotation/Calendar/Examples.antt =====
-- Grids of internal/rotation/grid.go in UTC, and the two days on which a clock is moved.
use tokayops.Prelude.{
  ℕ, suc, ◌+◌, ◌*◌, ◌≤◌, ◌<◌, ltb, if◌then◌else◌, none, some, [], ◌∷◌, ℤ, pos, negsuc, codes, ok,
  ◌≡◌, refl, arith,
}
use tokayops.Rotation.{Cadence, RotationPolicy}
use tokayops.Rotation.Zone.{
  Zone, IsZone, day, hour, minute, resolve_boundary, past_gap, gap_size, local_occurrences,
}
use tokayops.Rotation.Calendar.{
  Calendar, slot_containing, next_boundary, slots_between, slots_overlapping, new_calendar,
  parse_handoff_time, cursors_around, slot_within, back_within, align_date, next_after, next_within,
  count_within, overlapping_within, validate_policy,
}
use tokayops.Rotation.Calendar.Contract.{
  IsCalendar, Tiles, negated, slot_containing-same, slots_overlapping-Tiles, next_boundary-begins,
  slots_between-negated,
}
use tokayops.Rotation.Calendar.Counts.{slots_between_total}

abbrev utc : Zone
utc = record { offset = λ t. day; date_in = λ w. w }

utc-IsZone : IsZone utc
utc-IsZone = record {
  within = λ t. omega arith;
  date_from = λ w. omega arith;
  date_until = λ w. omega arith;
}

-- Nine o'clock every day.
abbrev nine : Calendar
nine = record { zone = utc; minutes = 540; weekday = none }

utc_boundary : (date : ℕ) → resolve_boundary utc 540 date ≡ date * day + 540 * minute
unfolding resolve_boundary local_occurrences
utc_boundary date = ground arith

nine-IsCalendar : IsCalendar nine
nine-IsCalendar = record {
  zone = utc-IsZone;
  time = omega arith;
  weekday = tt;
  ordered = λ date. omega (arith, utc_boundary date, utc_boundary (suc date));
}

-- A clock that is an hour ahead of UTC, and two from one o'clock UTC of day 1000 until one o'clock of
-- day 1200.
abbrev summer : Zone
summer = record {
  offset = λ t.
      if ltb t (1000 * day + hour)
      then day + hour
      else if ltb t (1200 * day + hour)
      then day + 2 * hour
      else day + hour;
  date_in = λ w. w;
}

-- Half past two of day 1000 does not exist: it is read as half past three.
in_gap : resolve_boundary summer 150 1000 ≡ 1000 * day + 90 * minute
unfolding resolve_boundary past_gap gap_size local_occurrences
in_gap = refl

-- Half past two of day 1200 is twice: the first is taken.
in_fold : resolve_boundary summer 150 1200 ≡ 1200 * day + 30 * minute
unfolding resolve_boundary local_occurrences
in_fold = refl

abbrev morning : ℕ
morning = 1000 * day + 600 * minute

abbrev evening : ℕ
evening = 1000 * day + 1200 * minute

abbrev handoff : ℕ → ℕ
handoff date = date * day + 540 * minute

slot_at_morning : slot_containing nine morning ≡ record { start = handoff 1000; end = handoff 1001 }
unfolding slot_containing cursors_around slot_within back_within align_date next_after next_within
    resolve_boundary local_occurrences
slot_at_morning = refl

slot_containing-same_example : slot_containing nine evening ≡ slot_containing nine morning
slot_containing-same_example =
    slot_containing-same nine morning evening nine-IsCalendar (omega arith) (omega arith)
      (ground (arith, slot_at_morning)) (ground (arith, slot_at_morning))

slots_overlapping-Tiles_example :
    ((slot_containing nine morning).start ≤ morning)
    × Tiles
        (slot_containing nine morning).start
        (handoff 1003)
        (slots_overlapping nine morning (handoff 1003))
slots_overlapping-Tiles_example =
    slots_overlapping-Tiles nine morning (handoff 1003) nine-IsCalendar (omega arith) (omega arith)

three_slots :
    slots_overlapping nine morning (handoff 1003)
    ≡ record { start = handoff 1000; end = handoff 1001 }
      ∷ record { start = handoff 1001; end = handoff 1002 }
      ∷ record { start = handoff 1002; end = handoff 1003 }
      ∷ []
unfolding slots_overlapping overlapping_within cursors_around slot_within back_within align_date
    next_after next_within resolve_boundary local_occurrences
three_slots = refl

next_boundary-begins_example :
    (morning < next_boundary nine morning)
    × (next_boundary nine morning ≡ (slot_containing nine morning).end)
    × ((slot_containing nine (next_boundary nine morning)).start ≡ next_boundary nine morning)
next_boundary-begins_example = next_boundary-begins nine morning nine-IsCalendar (omega arith)

slots_between_total_example : (n : ℤ) × (slots_between nine (handoff 1005) (handoff 1000) ≡ ok n)
unfolding slot_containing cursors_around slot_within back_within align_date next_after next_within
    resolve_boundary local_occurrences
slots_between_total_example =
    slots_between_total nine (handoff 1005) (handoff 1000) nine-IsCalendar (omega arith)
      (omega arith) refl refl

five_back : slots_between nine (handoff 1000) (handoff 1005) ≡ ok (negated (negsuc 4))
unfolding slots_between count_within cursors_around slot_within back_within align_date next_after
    next_within resolve_boundary local_occurrences
five_back = slots_between-negated nine (handoff 1005) (handoff 1000) (negsuc 4) refl

no_leading_zero : parse_handoff_time (codes "9:05") ≡ none
unfolding parse_handoff_time
no_leading_zero = refl

abbrev mondays : RotationPolicy
mondays = record { cadence = Cadence.weekly; handoff_time = "09:00"; handoff_day = some (pos 1) }

weekly :
    new_calendar (λ timezone. some utc) "UTC" mondays
    ≡ ok (record { zone = utc; minutes = 540; weekday = some 1 })
unfolding new_calendar validate_policy parse_handoff_time
weekly = refl
