-- ===== src/ScheduleRender/Examples.antt =====
-- A shift that a save in its middle had cut in two, and an override after it.
use tokayops.Prelude.{
  String, ℕ, true, List, [], ◌∷◌, ◌≡◌, ◌≤◌, ◌<◌, ◌&&◌, leb, ltb, length, some, ok, err, any, refl,
  arith,
}
use tokayops.ScheduleRender.{Assignment}
use tokayops.ScheduleRender.Slot.{OverrideRevision, SlotInput, covering_at, render_slot}
use tokayops.ScheduleRender.Slot.Pieces.{duty}
use tokayops.ScheduleRender.Slot.Duty.{render_slot-duty, render_slot_total}
use tokayops.ScheduleRender.Merge.{Shift, merge_adjacent}
use tokayops.ScheduleRender.Merge.Duty.{shift_serves, assignment_serves, merge_adjacent-serves}

abbrev assignment : String → String → ℕ → ℕ → Assignment
assignment revision user start end = record {
  schedule_revision_id = revision;
  layer = "l1";
  source = "rotation";
  group_id = user;
  user_ids = user ∷ [];
  grid_slot_start = 0;
  grid_slot_end = 100;
  assignment_start = start;
  assignment_end = end;
  override_id = "";
  override_revision_id = "";
}

abbrev assignments : List Assignment
assignments =
    assignment "r1" "ann" 0 40 ∷ assignment "r2" "ann" 40 70 ∷ assignment "r2" "bob" 70 100 ∷ []

abbrev shift : String → ℕ → ℕ → Shift
shift user start end = record {
  layer = "l1";
  source = "rotation";
  group_id = user;
  user_ids = user ∷ [];
  start = start;
  end = end;
  override_id = "";
  override_revision_id = "";
}

joined : merge_adjacent assignments ≡ shift "ann" 0 70 ∷ shift "bob" 70 100 ∷ []
unfolding merge_adjacent
joined = refl

merge_adjacent-serves_example :
    any
      (shift_serves (λ layer source group users override revision. true) 50)
      (merge_adjacent assignments)
    ≡ any (assignment_serves (λ layer source group users override revision. true) 50) assignments
merge_adjacent-serves_example =
    merge_adjacent-serves (λ layer source group users override revision. true) 50 assignments
      (ground arith, (ground arith, (ground arith, tt)))

abbrev override : String → String → ℕ → ℕ → OverrideRevision
override id user start end = record {
  revision_id = id;
  override_id = id;
  user_id = user;
  valid_from = start;
  valid_to = end;
}

-- Ann's slot, from 10 on, with these overrides.
abbrev slot : List OverrideRevision → SlotInput
slot overrides = record {
  revision_id = "r1";
  layer = "l1";
  slot = record { start = 0; end = 100 };
  bound = record { start = 10; end = 100 };
  base = some (record { group_id = "ann"; user_ids = "ann" ∷ [] });
  overrides = overrides;
}

abbrev overridden : List Assignment
overridden =
    record (assignment "r1" "ann" 10 30) { group_id = "ann" }
    ∷ record (assignment "r1" "bob" 30 60) {
      source = "override";
      group_id = "o1";
      override_id = "o1";
      override_revision_id = "o1";
    }
    ∷ assignment "r1" "ann" 60 100
    ∷ []

rendered : render_slot (slot (override "o1" "bob" 30 60 ∷ [])) ≡ ok overridden
unfolding render_slot
rendered = refl

collides :
    render_slot (slot (override "o1" "bob" 30 60 ∷ override "o2" "eve" 50 70 ∷ []))
    ≡ err (record {
      layer = "l1";
      span = record { start = 50; end = 60 };
      active = override "o1" "bob" 30 60 ∷ override "o2" "eve" 50 70 ∷ [];
    })
unfolding render_slot
collides = refl

render_slot-duty_example :
    any (assignment_serves (λ layer source group users override revision. true) 40) overridden ≡ (
      leb 10 40
      && ltb 40 100
      && duty
          (λ layer source group users override revision. true)
          (slot (override "o1" "bob" 30 60 ∷ []))
          (covering_at (override "o1" "bob" 30 60 ∷ []) 40))
render_slot-duty_example =
    render_slot-duty (λ layer source group users override revision. true) 40
      (slot (override "o1" "bob" 30 60 ∷ [])) rendered

one_override :
    (at : ℕ) → 10 ≤ at → at < 100 → length (covering_at (override "o1" "bob" 30 60 ∷ []) at) ≤ 1
unfolding covering_at
one_override at lo hi = ground arith

render_slot_total_example :
    (res : List Assignment) × (render_slot (slot (override "o1" "bob" 30 60 ∷ [])) ≡ ok res)
render_slot_total_example = render_slot_total (slot (override "o1" "bob" 30 60 ∷ [])) one_override
