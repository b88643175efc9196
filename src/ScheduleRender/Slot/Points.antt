-- ===== src/ScheduleRender/Slot/Points.antt =====
-- The points of a slot (internal/schedulerender/slot.go): sorted, and its bound and all boundaries inside.
use tokayops.Prelude.{
  ℕ, ◌≤◌, ◌<◌, ◌≡◌, ◌⊎◌, Bool, true, ◌&&◌, ◌||◌, List, [], ◌∷◌, leb, ltb, ◌==◌, any, all, All,
  arith, refl, Bool-cases, inl, inr,
}
use tokayops.ScheduleRender.Slot.{
  Interval, OverrideRevision, inside, inner_points, insert_point, sort_points, elementary_points,
}

-- Strictly rising, from above `low` on.
abbrev pub above : ℕ → List ℕ → Bool
above p [] = true
above p (r ∷ points) = ltb p r && above r points

abbrev pub rising : List ℕ → Bool
rising [] = true
rising (p ∷ points) = above p points

abbrev pub has : ℕ → List ℕ → Bool
has b = any (λ x. x == b)

abbrev pub between : Interval → List ℕ → Bool
between bound = all (λ x. leb bound.start x && leb x bound.end)

insert_point-above :
    (low p : ℕ) (points : List ℕ)
    → low < p
    → above low points ≡ true
    → above low (insert_point p points) ≡ true
unfolding insert_point
insert_point-above low p [] lo h = ground arith
insert_point-above low p (r ∷ points) lo h = elim (Bool-cases (ltb r p)) [
  | inl e ↦ let rest = insert_point-above r p points (ground arith) (ground arith) in ground arith
  | inr e ↦ ground arith
]

insert_point-rising :
    (p : ℕ) (points : List ℕ) → rising points ≡ true → rising (insert_point p points) ≡ true
unfolding insert_point
insert_point-rising p [] h = refl
insert_point-rising p (r ∷ points) h = ground (arith, insert_point-above r p points)

sort_points-rising : (points : List ℕ) → rising (sort_points points) ≡ true
unfolding sort_points
sort_points-rising [] = refl
sort_points-rising (p ∷ points) =
    insert_point-rising p (sort_points points) (sort_points-rising points)

has-insert_point :
    (b p : ℕ) (points : List ℕ) → has b (insert_point p points) ≡ (p == b || has b points)
unfolding insert_point
has-insert_point b p [] = ground arith
has-insert_point b p (r ∷ points) = ground (arith, has-insert_point b p points)

has-sort_points : (b : ℕ) (points : List ℕ) → has b (sort_points points) ≡ has b points
unfolding sort_points
has-sort_points b [] = refl
has-sort_points b (p ∷ points) =
    let rest = has-sort_points b points in
    let here = has-insert_point b p (sort_points points) in ground arith

between-insert_point :
    (bound : Interval) (p : ℕ) (points : List ℕ)
    → between bound (insert_point p points)
      ≡ (leb bound.start p && leb p bound.end && between bound points)
unfolding insert_point
between-insert_point bound p [] = ground arith
between-insert_point bound p (r ∷ points) = ground (arith, between-insert_point bound p points)

between-sort_points :
    (bound : Interval) (points : List ℕ) → between bound (sort_points points) ≡ between bound points
unfolding sort_points
between-sort_points bound [] = refl
between-sort_points bound (p ∷ points) =
    let rest = between-sort_points bound points in
    let here = between-insert_point bound p (sort_points points) in ground arith

inner_points-between :
    (overrides : List OverrideRevision) (bound : Interval)
    → between bound (inner_points overrides bound) ≡ true
unfolding inner_points
inner_points-between [] bound = refl
inner_points-between (o ∷ overrides) bound =
    let rest = inner_points-between overrides bound in ground arith

pub elementary_points-rising :
    (overrides : List OverrideRevision) (bound : Interval)
    → rising (elementary_points overrides bound) ≡ true
unfolding elementary_points
elementary_points-rising overrides bound =
    sort_points-rising (bound.start ∷ bound.end ∷ inner_points overrides bound)

pub elementary_points-between :
    (overrides : List OverrideRevision) (bound : Interval)
    → bound.start ≤ bound.end
    → between bound (elementary_points overrides bound) ≡ true
unfolding elementary_points
elementary_points-between overrides bound h =
    let inner = inner_points-between overrides bound in
    let sorted =
      between-sort_points bound (bound.start ∷ bound.end ∷ inner_points overrides bound) in
    ground arith

pub elementary_points-ends :
    (overrides : List OverrideRevision) (bound : Interval)
    → (has bound.start (elementary_points overrides bound) ≡ true)
      × (has bound.end (elementary_points overrides bound) ≡ true)
unfolding elementary_points
elementary_points-ends overrides bound =
    let s = has-sort_points bound.start (bound.start ∷ bound.end ∷ inner_points overrides bound) in
    let e = has-sort_points bound.end (bound.start ∷ bound.end ∷ inner_points overrides bound) in
    (ground arith, ground arith)

-- A boundary of an override is a point, or lies outside the bound.
abbrev pub Marked : Interval → List ℕ → ℕ → Type 0
Marked bound points b = (has b points ≡ true) ⊎ (b ≤ bound.start) ⊎ (bound.end ≤ b)

inner_points-has :
    (o : OverrideRevision) (overrides : List OverrideRevision) (bound : Interval) (b : ℕ)
    → has b (inner_points (o ∷ overrides) bound) ≡ (
        inside bound o.valid_from && o.valid_from == b
        || inside bound o.valid_to && o.valid_to == b
        || has b (inner_points overrides bound))
unfolding inner_points
inner_points-has o overrides bound b = ground arith

inner_points-Marked :
    (overrides : List OverrideRevision) (bound : Interval) (points : List ℕ)
    → ((b : ℕ) → has b (inner_points overrides bound) ≡ true → has b points ≡ true)
    → All (λ o. Marked bound points o.valid_from × Marked bound points o.valid_to) overrides
inner_points-Marked [] bound points h = tt
inner_points-Marked (o ∷ overrides) bound points h =
    let from : Marked bound points o.valid_from = elim (Bool-cases (inside bound o.valid_from)) [
      | inl e ↦
          let there = inner_points-has o overrides bound o.valid_from in
          inl (h o.valid_from (ground arith))
      | inr e ↦ inr (ground arith)
    ] in
    let to : Marked bound points o.valid_to = elim (Bool-cases (inside bound o.valid_to)) [
      | inl e ↦
          let there = inner_points-has o overrides bound o.valid_to in
          inl (h o.valid_to (ground arith))
      | inr e ↦ inr (ground arith)
    ] in
    (
      (from, to),
      inner_points-Marked overrides bound points
          (λ b m. let there = inner_points-has o overrides bound b in h b (ground arith)),
    )

pub elementary_points-Marked :
    (overrides : List OverrideRevision) (bound : Interval)
    → All
        (λ o.
          Marked bound (elementary_points overrides bound) o.valid_from
          × Marked bound (elementary_points overrides bound) o.valid_to)
        overrides
unfolding elementary_points
elementary_points-Marked overrides bound = inner_points-Marked overrides bound _ (λ b m.
    let s = has-sort_points b (bound.start ∷ bound.end ∷ inner_points overrides bound) in
    ground arith)
