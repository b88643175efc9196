-- ===== src/ScheduleRender/Slot/Spans.antt =====
-- The spans between the points of a slot (internal/schedulerender/slot.go).
use tokayops.Prelude.{
  ℕ, ◌≤◌, ◌<◌, ◌≡◌, ◌⊎◌, Bool, true, false, ◌&&◌, ◌||◌, List, [], ◌∷◌, leb, ltb, All, arith,
}
use tokayops.ScheduleRender.Slot.{Interval, OverrideRevision, elementary_points}
use tokayops.ScheduleRender.Slot.Points.{
  above, rising, has, between, Marked, elementary_points-rising, elementary_points-between,
  elementary_points-ends,
}

-- An instant that lies in a span between two neighbours.
abbrev pub within : List ℕ → ℕ → Bool
within [] at = false
within (p ∷ []) at = false
within (p ∷ r ∷ points) at = leb p at && ltb at r || within (r ∷ points) at

-- No boundary of these overrides lies strictly between two neighbours.
abbrev pub Clear : List OverrideRevision → ℕ → ℕ → Type 0
Clear covering p r =
    All (λ o. ((o.valid_from ≤ p) ⊎ (r ≤ o.valid_from)) × ((o.valid_to ≤ p) ⊎ (r ≤ o.valid_to)))
      covering

abbrev pub AllClear : List OverrideRevision → List ℕ → Type 0
AllClear covering [] = Unit
AllClear covering (p ∷ []) = Unit
AllClear covering (p ∷ r ∷ points) = Clear covering p r × AllClear covering (r ∷ points)

-- A point that rising points have is not below the first, nor between two neighbours.
pub above-has : (b p : ℕ) (points : List ℕ) → above p points ≡ true → has b points ≡ true → p < b
above-has b p [] up h = ground arith
above-has b p (r ∷ points) up h = ground (arith, above-has b r points)

Marked-neighbours :
    (bound : Interval) (all_points : List ℕ) (b p r : ℕ) (points : List ℕ)
    → (has b all_points ≡ true → (b ≤ p) ⊎ (has b (r ∷ points) ≡ true))
    → rising (p ∷ r ∷ points) ≡ true
    → between bound (p ∷ r ∷ points) ≡ true
    → Marked bound all_points b
    → (b ≤ p) ⊎ (r ≤ b)
Marked-neighbours bound all_points b p r points spread up inside marked =
    ground (arith, above-has b r points)

-- The points behind the first `p`: each point of the slot is at most `p` or among them.
abbrev Spread : List ℕ → ℕ → List ℕ → Type 0
Spread all_points p points = (b : ℕ) → has b all_points ≡ true → (b ≤ p) ⊎ (has b points ≡ true)

Spread-next :
    (all_points : List ℕ) (p r : ℕ) (points : List ℕ)
    → p < r
    → Spread all_points p (r ∷ points)
    → Spread all_points r points
Spread-next all_points p r points lo spread b h = let at = spread b h in ground arith

Clear-Marked :
    (bound : Interval) (all_points : List ℕ) (covering : List OverrideRevision) (p r : ℕ)
    (points : List ℕ)
    → Spread all_points p (r ∷ points)
    → rising (p ∷ r ∷ points) ≡ true
    → between bound (p ∷ r ∷ points) ≡ true
    → All (λ o. Marked bound all_points o.valid_from × Marked bound all_points o.valid_to) covering
    → Clear covering p r
Clear-Marked bound all_points [] p r points spread up inside marked = tt
Clear-Marked bound all_points (o ∷ covering) p r points spread up inside marked = (
  (
    Marked-neighbours bound all_points o.valid_from p r points (spread o.valid_from) up inside
        marked.0.0,
    Marked-neighbours bound all_points o.valid_to p r points (spread o.valid_to) up inside
        marked.0.1,
  ),
  Clear-Marked bound all_points covering p r points spread up inside marked.1,
)

AllClear-Marked :
    (bound : Interval) (all_points : List ℕ) (covering : List OverrideRevision) (p : ℕ)
    (points : List ℕ)
    → Spread all_points p points
    → rising (p ∷ points) ≡ true
    → between bound (p ∷ points) ≡ true
    → All (λ o. Marked bound all_points o.valid_from × Marked bound all_points o.valid_to) covering
    → AllClear covering (p ∷ points)
AllClear-Marked bound all_points covering p [] spread up inside marked = tt
AllClear-Marked bound all_points covering p (r ∷ points) spread up inside marked = (
  Clear-Marked bound all_points covering p r points spread up inside marked,
  AllClear-Marked bound all_points covering r points
      (Spread-next all_points p r points (ground arith) spread) (ground arith) (ground arith)
      marked,
)

pub AllClear-points :
    (bound : Interval) (covering : List OverrideRevision) (points : List ℕ)
    → rising points ≡ true
    → between bound points ≡ true
    → All (λ o. Marked bound points o.valid_from × Marked bound points o.valid_to) covering
    → AllClear covering points
AllClear-points bound covering [] up inside marked = tt
AllClear-points bound covering (p ∷ points) up inside marked =
    AllClear-Marked bound (p ∷ points) covering p points (λ b h. ground arith) up inside marked

within-between :
    (bound : Interval) (points : List ℕ) (at : ℕ)
    → between bound points ≡ true
    → within points at ≡ true
    → (bound.start ≤ at) × (at < bound.end)
within-between bound [] at inside w = ground arith
within-between bound (p ∷ []) at inside w = ground arith
within-between bound (p ∷ r ∷ points) at inside w =
    ground (arith, within-between bound (r ∷ points) at)

within-has :
    (e p : ℕ) (points : List ℕ) (at : ℕ)
    → has e (p ∷ points) ≡ true
    → p ≤ at
    → at < e
    → within (p ∷ points) at ≡ true
within-has e p [] at h lo hi = ground arith
within-has e p (r ∷ points) at h lo hi = ground (arith, within-has e r points at)

within-points :
    (bound : Interval) (points : List ℕ) (at : ℕ)
    → rising points ≡ true
    → has bound.start points ≡ true
    → has bound.end points ≡ true
    → bound.start ≤ at
    → at < bound.end
    → within points at ≡ true
within-points bound [] at up s e lo hi = ground arith
within-points bound (p ∷ points) at up s e lo hi =
    let least : p ≤ bound.start = ground (arith, above-has bound.start p points) in
    within-has bound.end p points at e (ground arith) hi

pub elementary_points-within :
    (overrides : List OverrideRevision) (bound : Interval) (at : ℕ)
    → bound.start ≤ bound.end
    → within (elementary_points overrides bound) at ≡ (leb bound.start at && ltb at bound.end)
elementary_points-within overrides bound at le =
    let up = elementary_points-rising overrides bound in
    let inside = elementary_points-between overrides bound le in
    let (s, e) = elementary_points-ends overrides bound in
    ground (
      arith,
      within-points bound (elementary_points overrides bound) at up s e,
      within-between bound (elementary_points overrides bound) at inside,
    )
