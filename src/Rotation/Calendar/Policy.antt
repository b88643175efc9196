-- ===== src/Rotation/Calendar/Policy.antt =====
-- Handoff times and policies as they are read (internal/rotation/policy.go).
use tokayops.Prelude.{
  String, ℕ, ◌+◌, ◌-◌, ◌*◌, ◌/◌, ◌%◌, ◌≤◌, ◌<◌, Bool, true, false, not, ◌&&◌, ◌||◌, ltb, ◌==◌,
  if◌then◌else◌, Option, none, some, [], ◌∷◌, ℤ, Bytes, codes, ok, ◌≡◌, refl, inl, inr,
  Option-cases, arith,
}
use tokayops.Rotation.{Cadence, RotationPolicy}
use tokayops.Rotation.Zone.{Zone}
use tokayops.Rotation.Calendar.{
  Calendar, is_digit, parse_handoff_time, day_fits, validate_policy, handoff_weekday, new_calendar,
}
use tokayops.Rotation.Calendar.Walk.{IsWeekday}

-- "HH:MM" of a number of minutes since midnight.
abbrev pub handoff_time : ℕ → Bytes
handoff_time n =
    (b'0' + n / 600) ∷ (b'0' + n / 60 % 10) ∷ b':' ∷ (b'0' + n % 60 / 10) ∷ (b'0' + n % 10) ∷ []

-- Every time of day is read back from its spelling.
pub parse_handoff_time-time : (n : ℕ) → n < 1440 → parse_handoff_time (handoff_time n) ≡ some n
unfolding parse_handoff_time
parse_handoff_time-time n h = ground arith

abbrev IsDigit : ℕ → Type 0
IsDigit b = (48 ≤ b) × (b ≤ 57)

is_digit-IsDigit : (b : ℕ) → is_digit b ≡ true → IsDigit b
is_digit-IsDigit b h = ground arith

all_true :
    (w x y z : Bool)
    → not (w && x && y && z) ≡ false
    → (w ≡ true) × (x ≡ true) × (y ≡ true) × (z ≡ true)
all_true w x y z h = ground arith

checked :
    {A : Type 0} (test : Bool) (rest : Option A) {value : A}
    → (if test then none else rest) ≡ some value
    → (test ≡ false) × (rest ≡ some value)
checked true rest h = ground arith
checked false rest h = (refl, h)

in_range :
    (hours minutes : ℕ) → (ltb 23 hours || ltb 59 minutes) ≡ false → (hours ≤ 23) × (minutes ≤ 59)
in_range hours minutes h = ground arith

spelled :
    (a b c d : ℕ)
    → IsDigit a × IsDigit b × IsDigit c × IsDigit d
    → ((a - 48) * 10 + (b - 48) ≤ 23) × ((c - 48) * 10 + (d - 48) ≤ 59)
    → (n : ℕ) → (((a - 48) * 10 + (b - 48)) * 60 + ((c - 48) * 10 + (d - 48))) ≡ n
    → (n < 1440)
      × (a ≡ 48 + n / 600)
      × (b ≡ 48 + n / 60 % 10)
      × (c ≡ 48 + n % 60 / 10)
      × (d ≡ 48 + n % 10)
spelled a b c d digits range n same = omega arith

five_parse :
    (a b e c d n : ℕ)
    → parse_handoff_time (a ∷ b ∷ e ∷ c ∷ d ∷ []) ≡ some n
    → (n < 1440) × ((a ∷ b ∷ e ∷ c ∷ d ∷ []) ≡ handoff_time n)
unfolding parse_handoff_time
five_parse a b e c d n h =
    let (colon, h1) = checked (not (e == 58)) _ h in
    let (digits, h2) = checked (not (is_digit a && is_digit b && is_digit c && is_digit d)) _ h1 in
    let (range, h3) =
      checked (ltb 23 ((a - 48) * 10 + (b - 48)) || ltb 59 ((c - 48) * 10 + (d - 48))) _ h2 in
    let (da, db, dc, dd) = all_true _ _ _ _ digits in
    let digit : IsDigit a × IsDigit b × IsDigit c × IsDigit d = (
      is_digit-IsDigit a da,
      is_digit-IsDigit b db,
      is_digit-IsDigit c dc,
      is_digit-IsDigit d dd,
    ) in
    let (bound, ea, eb, ec, ed) = spelled a b c d digit (in_range _ _ range) n (cc) in
    let at_colon : e ≡ 58 = ground (arith, colon) in (bound, cc)

-- A text that is read is the one spelling of its time, so texts are equal when their times are.
pub handoff_time-parse :
    (s : Bytes) (n : ℕ) → parse_handoff_time s ≡ some n → (n < 1440) × (s ≡ handoff_time n)
handoff_time-parse (a ∷ b ∷ c ∷ d ∷ e ∷ []) n h = five_parse a b c d e n h
handoff_time-parse [] n h = unfold parse_handoff_time in ground arith
handoff_time-parse (a ∷ []) n h = unfold parse_handoff_time in ground arith
handoff_time-parse (a ∷ b ∷ []) n h = unfold parse_handoff_time in ground arith
handoff_time-parse (a ∷ b ∷ c ∷ []) n h = unfold parse_handoff_time in ground arith
handoff_time-parse (a ∷ b ∷ c ∷ d ∷ []) n h = unfold parse_handoff_time in ground arith
handoff_time-parse (a ∷ b ∷ c ∷ d ∷ e ∷ f ∷ s) n h = unfold parse_handoff_time in ground arith

handoff_weekday-IsWeekday :
    (c : Cadence) (d : Option ℤ) → day_fits c d ≡ true → IsWeekday (handoff_weekday c d)
handoff_weekday-IsWeekday c d h = ground arith

-- A grid is made only of a time of day and a day of the week.
pub new_calendar-fits :
    (load : String → Option Zone) (timezone : String) (p : RotationPolicy) (g : Calendar)
    → new_calendar load timezone p ≡ ok g
    → (g.minutes < 1440) × IsWeekday g.weekday × (load timezone ≡ some g.zone)
unfolding new_calendar validate_policy
new_calendar-fits load timezone p g h =
    let weekday = handoff_weekday-IsWeekday p.cadence p.handoff_day in
    let read = handoff_time-parse (codes p.handoff_time) in
    elim (Option-cases (load timezone)) [
      | inl unknown ↦ ground (arith, unknown)
      | inr (zone, known) ↦ elim (Option-cases (parse_handoff_time (codes p.handoff_time))) [
        | inl unread ↦ ground (arith, known, unread)
        | inr (minutes, time) ↦
            let (bound, _) = read minutes time in ground (arith, known, time, weekday, bound)
      ]
    ]
