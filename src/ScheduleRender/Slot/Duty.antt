-- ===== src/ScheduleRender/Slot/Duty.antt =====
-- A slot that is rendered answers who is on duty at every instant (internal/schedulerender/slot.go).
use tokayops.Prelude.{
  ℕ, ◌≤◌, ◌<◌, ◌≡◌, ◌⊎◌, true, ◌&&◌, ◌||◌, List, [], ◌∷◌, ok, leb, ltb, length, any, All, arith,
  refl, Bool-cases, inl, inr,
}
use tokayops.ScheduleRender.{Assignment}
use tokayops.ScheduleRender.Merge.Duty.{Question, assignment_serves, IsForward}
use tokayops.ScheduleRender.Slot.{
  Interval, OverrideRevision, SlotInput, empty, covers, covering_at, overrides_for_slot,
  elementary_points, piece, append_piece, render_spans, render_slot,
}
use tokayops.ScheduleRender.Slot.Pieces.{duty, append_piece-serves, append_piece-IsForward}
use tokayops.ScheduleRender.Slot.Points.{
  rising, between, elementary_points-rising, elementary_points-between, elementary_points-Marked,
}
use tokayops.ScheduleRender.Slot.Spans.{
  within, Clear, AllClear, AllClear-points, elementary_points-within,
}

covers-Clear :
    (o : OverrideRevision) (p r at : ℕ)
    → ((o.valid_from ≤ p) ⊎ (r ≤ o.valid_from)) × ((o.valid_to ≤ p) ⊎ (r ≤ o.valid_to))
    → p ≤ at
    → at < r
    → covers o at ≡ covers o p
unfolding covers
covers-Clear o p r at c lo hi = ground arith

-- In a span the overrides that cover an instant are those that cover its start.
covering_at-Clear :
    (covering : List OverrideRevision) (p r at : ℕ)
    → Clear covering p r
    → p ≤ at
    → at < r
    → covering_at covering at ≡ covering_at covering p
unfolding covering_at
covering_at-Clear [] p r at c lo hi = refl
covering_at-Clear (o ∷ covering) p r at c lo hi =
    let rest = covering_at-Clear covering p r at c.1 lo hi in
    let same : covers o at ≡ covers o p = covers-Clear o p r at c.0 lo hi in cc

render_spans-serves :
    (q : Question) (at : ℕ) (i : SlotInput) (covering : List OverrideRevision) (points : List ℕ)
    (out res : List Assignment)
    → rising points ≡ true
    → AllClear covering points
    → All IsForward out
    → render_spans i covering points out ≡ ok res
    → any (assignment_serves q at) res ≡ (
        any (assignment_serves q at) out
        || (duty q i (covering_at covering at) && within points at))
unfolding render_spans
render_spans-serves q at i covering [] out res up clear h e = ground arith
render_spans-serves q at i covering (p ∷ []) out res up clear h e = ground arith
render_spans-serves q at i covering (p ∷ r ∷ points) out res up clear h e =
    let le : p ≤ r = ground arith in
    let active = covering_at covering p in
    let here = append_piece-serves q at i out p r active h le in
    let rest =
      render_spans-serves q at i covering (r ∷ points) _ res (ground arith) clear.1
        (append_piece-IsForward i out p r active h le) (ground arith) in
    elim (Bool-cases (leb p at && ltb at r)) [
      | inl now ↦
          let same = covering_at-Clear covering p r at clear.0 (ground arith) (ground arith) in
          let equal : duty q i (covering_at covering at) ≡ duty q i active = cc in ground arith
      | inr other ↦ ground arith
    ]

-- Inside the bound, the overrides that reach it are all that can cover an instant.
covering_at-overrides_for_slot :
    (overrides : List OverrideRevision) (bound : Interval) (at : ℕ)
    → bound.start ≤ at
    → at < bound.end
    → covering_at (overrides_for_slot overrides bound) at ≡ covering_at overrides at
unfolding covering_at overrides_for_slot covers
covering_at-overrides_for_slot [] bound at lo hi = refl
covering_at-overrides_for_slot (o ∷ overrides) bound at lo hi =
    let rest = covering_at-overrides_for_slot overrides bound at lo hi in ground arith

-- A rendered slot answers who is on duty at every instant: whatever is asked about a duty, a piece of
-- such a duty covers the instant if and only if the instant lies in the bound and such a duty follows
-- from the overrides that cover it and the rotation's group - the holder of the only override, the
-- group when there is none, and nobody when there is no group either.
pub render_slot-duty :
    (q : Question) (at : ℕ) (i : SlotInput) {res : List Assignment}
    → render_slot i ≡ ok res
    → any (assignment_serves q at) res
      ≡ (leb i.bound.start at && ltb at i.bound.end && duty q i (covering_at i.overrides at))
unfolding render_slot empty
render_slot-duty q at i {res} h = elim (Bool-cases (ltb i.bound.start i.bound.end)) [
  | inl e ↦
      let covering = overrides_for_slot i.overrides i.bound in
      let points = elementary_points covering i.bound in
      let up = elementary_points-rising covering i.bound in
      let inside = elementary_points-between covering i.bound (ground arith) in
      let clear =
        AllClear-points i.bound covering points up inside
          (elementary_points-Marked covering i.bound) in
      let served = render_spans-serves q at i covering points [] res up clear tt (ground arith) in
      let span = elementary_points-within covering i.bound at (ground arith) in
      elim (Bool-cases (leb i.bound.start at && ltb at i.bound.end)) [
        | inl now ↦
            let same =
              covering_at-overrides_for_slot i.overrides i.bound at (ground arith) (ground arith) in
            let equal : duty q i (covering_at covering at) ≡ duty q i (covering_at i.overrides at) =
              cc in
            ground arith
        | inr other ↦ ground arith
      ]
  | inr e ↦ ground arith
]

render_spans_total :
    (i : SlotInput) (covering : List OverrideRevision) (points : List ℕ) (out : List Assignment)
    → rising points ≡ true
    → between i.bound points ≡ true
    → ((at : ℕ) → i.bound.start ≤ at → at < i.bound.end → length (covering_at covering at) ≤ 1)
    → (res : List Assignment) × (render_spans i covering points out ≡ ok res)
unfolding render_spans
render_spans_total i covering [] out up inside alone = (out, refl)
render_spans_total i covering (p ∷ []) out up inside alone = (out, refl)
render_spans_total i covering (p ∷ r ∷ points) out up inside alone =
    let one = alone p (ground arith) (ground arith) in
    let (res, e) =
      render_spans_total i covering (r ∷ points)
        (append_piece out (piece i (record { start = p; end = r }) (covering_at covering p)))
        (ground arith) (ground arith) alone in
    (res, ground arith)

-- A slot is rendered unless two overrides meet: when at most one covers each instant of the bound,
-- the code answers, and does not refuse.
pub render_slot_total :
    (i : SlotInput)
    → ((at : ℕ) → i.bound.start ≤ at → at < i.bound.end → length (covering_at i.overrides at) ≤ 1)
    → (res : List Assignment) × (render_slot i ≡ ok res)
unfolding render_slot empty
render_slot_total i alone = elim (Bool-cases (ltb i.bound.start i.bound.end)) [
  | inl e ↦
      let covering = overrides_for_slot i.overrides i.bound in
      let (res, f) =
        render_spans_total i covering (elementary_points covering i.bound) []
          (elementary_points-rising covering i.bound)
          (elementary_points-between covering i.bound (ground arith))
          (λ at lo hi.
            let same = covering_at-overrides_for_slot i.overrides i.bound at lo hi in
            let one = alone at lo hi in rw same one) in
      (res, ground arith)
  | inr e ↦ ([], ground arith)
]
