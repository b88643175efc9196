-- ===== src/ScheduleRender/Slot.antt =====
-- Overrides laid over one slot of a rotation (internal/schedulerender/slot.go).
pub mod Pieces
pub mod Points
pub mod Spans
pub mod Duty
use tokayops.Prelude.{
  String, ℕ, Bool, not, ◌&&◌, ◌||◌, Option, none, some, List, [], ◌∷◌, ◌++◌, Result, ok, err,
  str_eq, ltb, leb, ◌==◌, if◌then◌else◌, length,
}
use tokayops.ScheduleRender.{Assignment}
use tokayops.ScheduleRender.Merge.{equal_ids}

-- types.go
pub record Interval : Type 0 where
  pub start : ℕ
  pub end : ℕ

unfoldable pub empty : Interval → Bool
empty i = not (ltb i.start i.end)

-- layer.go
pub record BaseGroup : Type 0 where
  pub group_id : String
  pub user_ids : List String

-- internal/scheduleconfig/repository.go, as far as a slot reads it.
pub record OverrideRevision : Type 0 where
  pub revision_id : String
  pub override_id : String
  pub user_id : String
  pub valid_from : ℕ
  pub valid_to : ℕ

pub record SlotInput : Type 0 where
  pub revision_id : String
  pub layer : String
  pub slot : Interval
  pub bound : Interval
  pub base : Option BaseGroup
  pub overrides : List OverrideRevision

-- `ErrOverrideCollision`, with the span and the overrides that meet there.
pub record Collision : Type 0 where
  pub layer : String
  pub span : Interval
  pub active : List OverrideRevision

unfoldable pub overrides_for_slot : List OverrideRevision → Interval → List OverrideRevision
overrides_for_slot [] bound = []
overrides_for_slot (o ∷ overrides) bound =
    let rest = overrides_for_slot overrides bound in
    if not (ltb bound.start o.valid_to) || not (ltb o.valid_from bound.end) then rest else o ∷ rest

unfoldable pub covers : OverrideRevision → ℕ → Bool
covers o at = leb o.valid_from at && ltb at o.valid_to

unfoldable pub covering_at : List OverrideRevision → ℕ → List OverrideRevision
unfolding covers
covering_at [] at = []
covering_at (o ∷ overrides) at =
    let rest = covering_at overrides at in if covers o at then o ∷ rest else rest

abbrev pub inside : Interval → ℕ → Bool
inside bound p = ltb bound.start p && ltb p bound.end

-- The boundaries of the overrides that lie inside the bound.
unfoldable pub inner_points : List OverrideRevision → Interval → List ℕ
inner_points [] bound = []
inner_points (o ∷ overrides) bound =
    let rest = inner_points overrides bound in
    (if inside bound o.valid_from then o.valid_from ∷ [] else [])
    ++ (if inside bound o.valid_to then o.valid_to ∷ [] else [])
    ++ rest

-- The sort, and the loop that leaves out a point that equals the one before it, as one insertion.
unfoldable pub insert_point : ℕ → List ℕ → List ℕ
insert_point p [] = p ∷ []
insert_point p (r ∷ points) =
    let rest = insert_point p points in
    if ltb p r then p ∷ r ∷ points else if p == r then r ∷ points else r ∷ rest

unfoldable pub sort_points : List ℕ → List ℕ
unfolding insert_point
sort_points [] = []
sort_points (p ∷ points) = insert_point p (sort_points points)

unfoldable pub elementary_points : List OverrideRevision → Interval → List ℕ
unfolding inner_points sort_points
elementary_points overrides bound =
    sort_points (bound.start ∷ bound.end ∷ inner_points overrides bound)

unfoldable pub same_assignment : Assignment → Assignment → Bool
unfolding equal_ids
same_assignment a b =
    str_eq a.layer b.layer
    && str_eq a.source b.source
    && str_eq a.group_id b.group_id
    && str_eq a.override_id b.override_id
    && str_eq a.override_revision_id b.override_revision_id
    && equal_ids a.user_ids b.user_ids

unfoldable pub append_assignment : List Assignment → Assignment → List Assignment
unfolding same_assignment
append_assignment [] next = next ∷ []
append_assignment (last ∷ []) next =
    if last.assignment_end == next.assignment_start && same_assignment last next
    then record last { assignment_end = next.assignment_end } ∷ []
    else last ∷ next ∷ []
append_assignment (a ∷ b ∷ out) next = a ∷ append_assignment (b ∷ out) next

unfoldable pub override_piece : SlotInput → Interval → OverrideRevision → Assignment
override_piece i span winner = record {
  schedule_revision_id = i.revision_id;
  layer = i.layer;
  source = "override";
  group_id = winner.override_id;
  user_ids = winner.user_id ∷ [];
  grid_slot_start = i.slot.start;
  grid_slot_end = i.slot.end;
  assignment_start = span.start;
  assignment_end = span.end;
  override_id = winner.override_id;
  override_revision_id = winner.revision_id;
}

unfoldable pub base_piece : SlotInput → Interval → BaseGroup → Assignment
base_piece i span base = record {
  schedule_revision_id = i.revision_id;
  layer = i.layer;
  source = "rotation";
  group_id = base.group_id;
  user_ids = base.user_ids;
  grid_slot_start = i.slot.start;
  grid_slot_end = i.slot.end;
  assignment_start = span.start;
  assignment_end = span.end;
  override_id = "";
  override_revision_id = "";
}

-- The piece of a span in which these overrides are active; of two or more there is none.
unfoldable pub piece : SlotInput → Interval → List OverrideRevision → Option Assignment
unfolding override_piece base_piece
piece i span (o ∷ []) = some (override_piece i span o)
piece i span (o ∷ p ∷ active) = none
piece i span [] = elim i.base [ none ↦ none | some base ↦ some (base_piece i span base) ]

abbrev pub append_piece : List Assignment → Option Assignment → List Assignment
append_piece out none = out
append_piece out (some next) = append_assignment out next

-- The loop of `renderSlot` over the spans between the points.
unfoldable pub render_spans :
    SlotInput
    → List OverrideRevision
    → List ℕ
    → List Assignment
    → Result Collision (List Assignment)
unfolding covering_at piece append_assignment
render_spans i covering [] out = ok out
render_spans i covering (p ∷ []) out = ok out
render_spans i covering (p ∷ r ∷ points) out =
    let active = covering_at covering p in
    let rest =
      render_spans i covering (r ∷ points)
        (append_piece out (piece i (record { start = p; end = r }) active)) in
    if ltb 1 (length active)
    then err (record { layer = i.layer; span = record { start = p; end = r }; active = active })
    else rest

unfoldable pub render_slot : SlotInput → Result Collision (List Assignment)
unfolding empty overrides_for_slot elementary_points render_spans
render_slot i =
    let covering = overrides_for_slot i.overrides i.bound in
    if empty i.bound then ok [] else render_spans i covering (elementary_points covering i.bound) []
