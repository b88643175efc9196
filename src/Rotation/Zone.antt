-- ===== src/Rotation/Zone.antt =====
-- internal/rotation/grid.go: the instant of a local handoff time on a date, in a timezone.
--
-- An instant is a count of nanoseconds since the start of year 1 in UTC, a date the count of days
-- since then. time.Location belongs to Go's library and is a parameter: what the code asks of it is
-- the offset from UTC at an instant, and time.Date for a wall clock that does not exist.
pub mod Bounds
use tokayops.Prelude.{
  ℕ, zero, suc, ◌+◌, ◌-◌, ◌*◌, ◌/◌, ◌%◌, ◌≤◌, ◌<◌, Bool, true, false, ◌&&◌, ◌==◌, ltb,
  if◌then◌else◌, Option, none, some, List, [], ◌∷◌, ◌++◌, length, any, ◌≡◌, arith,
}

abbrev pub second : ℕ
second = 1_000_000_000

abbrev pub minute : ℕ
minute = 60_000_000_000

abbrev pub hour : ℕ
hour = 3_600_000_000_000

abbrev pub day : ℕ
day = 86_400_000_000_000

-- `offset t` is how far the wall clock is east of UTC at `t`, and one day more, so that it is no
-- negative number; `date_in w` is time.Date of the wall clock `w`.
pub record Zone : Type 0 where
  pub offset : ℕ → ℕ
  pub date_in : ℕ → ℕ

-- Every clock is within a day of UTC, as time.Date is.
pub record IsZone (zone : Zone) : Type 0 where
  pub within : (t : ℕ) → zone.offset t ≤ 2 * day
  pub date_from : (w : ℕ) → w ≤ zone.date_in w + day
  pub date_until : (w : ℕ) → zone.date_in w ≤ w + day

-- `t.In(loc)`, as nanoseconds of the wall clock.
abbrev pub wall : Zone → ℕ → ℕ
wall zone t = t + zone.offset t - day

-- The date at hh:mm in UTC; `minutes` is hh*60 + mm.
abbrev pub guess_at : ℕ → ℕ → ℕ
guess_at date minutes = date * day + minutes * minute

-- Whether the wall clock reads the date, the hour, the minute and second zero.
abbrev reads : Zone → ℕ → ℕ → ℕ → Bool
reads zone date minutes candidate =
    let clock = wall zone candidate in
    clock / day == date && clock % day / minute == minutes && clock / second % 60 == 0

-- The offsets seen, and the occurrences found.
abbrev Found : Type 0
Found = List ℕ × List ℕ

abbrev probed : Zone → ℕ → ℕ → ℕ → Found → Found
probed zone date minutes offset found =
    let candidate = guess_at date minutes + day - offset in
    if any (λ other. other == offset) found.0 then found else (
      offset ∷ found.0,
      if reads zone date minutes candidate && ltb (length found.1) 2
          then found.1 ++ candidate ∷ []
          else found.1,
    )

abbrev probe_all : Zone → ℕ → ℕ → List ℕ → Found → Found
probe_all zone date minutes [] found = found
probe_all zone date minutes (at ∷ rest) found =
    probe_all zone date minutes rest (probed zone date minutes (zone.offset at) found)

abbrev in_order : List ℕ → List ℕ
in_order (a ∷ b ∷ []) = if ltb b a then b ∷ a ∷ [] else a ∷ b ∷ []
in_order found = found

-- The five places around the target at which the offset is probed.
abbrev probes : ℕ → List ℕ
probes guess =
    (guess - 30 * hour)
    ∷ (guess - 12 * hour)
    ∷ guess
    ∷ (guess + 12 * hour)
    ∷ (guess + 30 * hour)
    ∷ []

-- `localOccurrences`
unfoldable pub local_occurrences : Zone → ℕ → ℕ → List ℕ
local_occurrences zone date minutes =
    in_order (probe_all zone date minutes (probes (guess_at date minutes)) ([], [])).1

-- The binary search of `gapSize`; each round halves the interval.
abbrev narrowed : Zone → ℕ → ℕ → ℕ → ℕ → ℕ
narrowed zone zero before lo hi = hi
narrowed zone (suc rounds) before lo hi =
    let mid = lo + (hi - lo) / 2 in
    elim (ltb second (hi - lo)) [
      | false ↦ hi
      | true ↦
          let still = zone.offset mid == before in
          narrowed zone rounds before (if still then mid else lo) (if still then hi else mid)
    ]

-- 60 hours are less than 2^48 nanoseconds.
abbrev pub search_rounds : ℕ
search_rounds = 48

unfoldable pub gap_size : Zone → ℕ → ℕ → ℕ
gap_size zone date minutes =
    let guess = guess_at date minutes in
    let lo = guess - 30 * hour in
    let hi = guess + 30 * hour in
    let before = zone.offset lo in
    if zone.offset hi == before
    then 0
    else zone.offset (narrowed zone search_rounds before lo hi) - before

abbrev pub first_of : List ℕ → Option ℕ
first_of [] = none
first_of (t ∷ rest) = some t

abbrev pub otherwise : Option ℕ → ℕ → ℕ
otherwise none fallback = fallback
otherwise (some t) fallback = t

-- A time in a gap: the wall clock is moved on by the gap, over midnight when it must.
unfoldable pub past_gap : Zone → ℕ → ℕ → ℕ
past_gap zone date minutes =
    let total = minutes + gap_size zone date minutes / minute in
    let moved = date + total / 1440 in
    otherwise (first_of (local_occurrences zone moved (total % 1440)))
      (zone.date_in (guess_at moved (total % 1440)))

-- `resolveLocalBoundary`
unfoldable pub resolve_boundary : Zone → ℕ → ℕ → ℕ
resolve_boundary zone minutes date =
    otherwise (first_of (local_occurrences zone date minutes)) (past_gap zone date minutes)
