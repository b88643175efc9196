-- ===== src/Rotation/Zone/Bounds.antt =====
-- How far the instant of a local time lies from its date (internal/rotation/grid.go).
use tokayops.Prelude.{
  ℕ, ◌+◌, ◌-◌, ◌*◌, ◌/◌, ◌%◌, ◌≤◌, ◌<◌, true, false, ◌&&◌, ◌==◌, ltb, if◌then◌else◌, List, [], ◌∷◌,
  ◌++◌, length, any, All, arith,
}
use tokayops.Rotation.Zone.{
  Zone, IsZone, minute, hour, day, guess_at, local_occurrences, gap_size, narrowed, search_rounds,
  first_of, otherwise, past_gap, resolve_boundary, probed, probe_all, in_order, probes, Found,
  reads,
}

-- Within a day of each other.
abbrev Near : ℕ → ℕ → Type 0
Near a b = (a ≤ b + day) × (b ≤ a + day)

All-append_one : (P : ℕ → Type 0) (xs : List ℕ) (x : ℕ) → All P xs → P x → All P (xs ++ x ∷ [])
All-append_one P [] x _ px = (px, tt)
All-append_one P (y ∷ xs) x (py, ps) px = (py, All-append_one P xs x ps px)

candidate-Near : (guess offset : ℕ) → offset ≤ 2 * day → Near guess (guess + day - offset)
candidate-Near guess offset h = omega arith

probed-Near :
    (zone : Zone) (date minutes offset : ℕ) (found : Found)
    → offset ≤ 2 * day
    → All (Near (guess_at date minutes)) found.1
    → All (Near (guess_at date minutes)) (probed zone date minutes offset found).1
probed-Near zone date minutes offset found h near =
    let candidate = guess_at date minutes + day - offset in
    elim (any (λ other. other == offset) found.0)
      as (λ seen.
        All (Near (guess_at date minutes))
          (if seen then found else (
            offset ∷ found.0,
            if reads zone date minutes candidate && ltb (length found.1) 2
                then found.1 ++ candidate ∷ []
                else found.1,
          )).1) [
            | true ↦ near
            | false ↦
                elim (reads zone date minutes candidate && ltb (length found.1) 2)
                  as (λ read.
                    All (Near (guess_at date minutes))
                      (if read then found.1 ++ candidate ∷ [] else found.1)) [
                        | true ↦
                            All-append_one (Near (guess_at date minutes)) found.1 candidate near
                              (candidate-Near (guess_at date minutes) offset h)
                        | false ↦ near
                      ]
          ]

probe_all-Near :
    (zone : Zone) (date minutes : ℕ) (at : List ℕ) (found : Found)
    → IsZone zone
    → All (Near (guess_at date minutes)) found.1
    → All (Near (guess_at date minutes)) (probe_all zone date minutes at found).1
probe_all-Near zone date minutes [] found is near = near
probe_all-Near zone date minutes (t ∷ rest) found is near =
    probe_all-Near zone date minutes rest (probed zone date minutes (zone.offset t) found) is
      (probed-Near zone date minutes (zone.offset t) found (is.within t) near)

in_order-All : (P : ℕ → Type 0) (xs : List ℕ) → All P xs → All P (in_order xs)
in_order-All P [] h = tt
in_order-All P (a ∷ []) h = h
in_order-All P (a ∷ b ∷ []) (pa, (pb, _)) =
    elim (ltb b a) as (λ later. All P (if later then b ∷ a ∷ [] else a ∷ b ∷ [])) [
      | true ↦ (pb, (pa, tt))
      | false ↦ (pa, (pb, tt))
    ]
in_order-All P (a ∷ b ∷ c ∷ xs) h = h

first_of-All :
    (P : ℕ → Type 0) (xs : List ℕ) (fallback : ℕ)
    → All P xs
    → P fallback
    → P (otherwise (first_of xs) fallback)
first_of-All P [] fallback _ fine = fine
first_of-All P (x ∷ xs) fallback (px, _) fine = px

-- What holds near the target and of the fallback holds of the first occurrence, or of the fallback.
occurrence-Near :
    (P : ℕ → Type 0) (zone : Zone) (date minutes fallback : ℕ)
    → IsZone zone
    → ((t : ℕ) → Near (guess_at date minutes) t → P t)
    → P fallback
    → P (otherwise (first_of (local_occurrences zone date minutes)) fallback)
unfolding local_occurrences
occurrence-Near P zone date minutes fallback is near fine =
    let found = probe_all-Near zone date minutes (probes (guess_at date minutes)) ([], []) is tt in
    first_of-All P _ fallback (weaken _ (in_order-All (Near (guess_at date minutes)) _ found)) fine
  where
    weaken : (xs : List ℕ) → All (Near (guess_at date minutes)) xs → All P xs
    weaken [] _ = tt
    weaken (x ∷ xs) (nx, ns) = (near x nx, weaken xs ns)

gap_size_bound :
    (zone : Zone) (date minutes : ℕ) → IsZone zone → gap_size zone date minutes ≤ 2 * day
unfolding gap_size
gap_size_bound zone date minutes is =
    let guess = guess_at date minutes in
    let lo = guess - 30 * hour in
    let hi = guess + 30 * hour in
    let found = narrowed zone search_rounds (zone.offset lo) lo hi in
    let most = is.within found in
    elim (zone.offset hi == zone.offset lo)
      as (λ steady. (if steady then 0 else zone.offset found - zone.offset lo) ≤ 2 * day) [
        | true ↦ omega arith
        | false ↦ omega (arith, most)
      ]

-- Where the boundary of a date may lie: not a day before the date begins, and not four days after.
abbrev pub Around : ℕ → ℕ → Type 0
Around date t = (date * day ≤ t + day) × (t < date * day + 4 * day)

past_gap-Around :
    (zone : Zone) (date minutes : ℕ)
    → IsZone zone
    → minutes < 1440
    → Around date (past_gap zone date minutes)
unfolding past_gap
past_gap-Around zone date minutes is h =
    let gap = gap_size_bound zone date minutes is in
    let total = minutes + gap_size zone date minutes / minute in
    let moved = date + total / 1440 in
    let guess = guess_at moved (total % 1440) in
    let near =
      occurrence-Near (Near guess) zone moved (total % 1440) (zone.date_in guess) is (λ t h. h)
        (is.date_from guess, is.date_until guess) in
    omega (arith, near, gap)

-- The boundary of a date is less than a day before the date begins, and less than four days after,
-- where the wall clock skips up to two days.
pub resolve_boundary-Around :
    (zone : Zone) (minutes date : ℕ)
    → IsZone zone
    → minutes < 1440
    → Around date (resolve_boundary zone minutes date)
unfolding resolve_boundary
resolve_boundary-Around zone minutes date is h =
    let past = past_gap-Around zone date minutes is h in
    occurrence-Near (Around date) zone date minutes (past_gap zone date minutes) is
      (λ t near. omega arith) past
