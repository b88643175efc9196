-- ===== src/Rotation/Examples.antt =====
-- A rotation of three groups over days of a hundred ticks.
use tokayops.Prelude.{
  String, ◌+◌, ◌-◌, ◌*◌, ◌/◌, ◌≡◌, ◌⊎◌, true, false, none, some, List, [], ◌∷◌, Result, ok, err,
  leb, str_eq, if◌then◌else◌, arith, refl, subst, Bool-cases, inl, inr, pos, negsuc,
}
use tokayops.Rotation.{
  Cadence, RotationPolicy, RotationGroup, RotationLayerSnapshot, LayerConfiguration, RotationError,
  Slot, Grid, IsGrid,
}
use tokayops.Rotation.Position.{is_off, position_at, group_at, active_group_at}
use tokayops.Rotation.Planning.{planned, plan_layer, group_index_by_id}
use tokayops.Rotation.Planning.Duty.{plan_layer-kept}
use tokayops.Rotation.Planning.Succession.{plan_layer-successor}
use tokayops.Rotation.Planning.Phase.{PhasedLayer, plan_layer-Phased}
use tokayops.Rotation.Transition.{PhaseAction, LayerTransition, GroupSelection}

abbrev days : Grid
days = record {
  slot_containing = λ at. record { start = at / 100 * 100; end = at / 100 * 100 + 100 };
  slots_between =
      λ a b. if leb a b then ok (pos ((b - a) / 100)) else ok (negsuc ((a - b) / 100 - 1));
}

days-IsGrid : IsGrid days
days-IsGrid = record { starts = λ at. omega arith; none_between = λ at. ground arith }

abbrev grid_of : String → RotationPolicy → Result RotationError Grid
grid_of tz policy = if str_eq tz "" then err (RotationError.no_grid tz) else ok days

grid_of-IsGrid : (tz : String) (p : RotationPolicy) (g : Grid) → grid_of tz p ≡ ok g → IsGrid g
grid_of-IsGrid tz p g h = elim (Bool-cases (str_eq tz "")) [
  | inl e ↦ ground arith
  | inr e ↦ let same : days ≡ g = ground arith in subst IsGrid same days-IsGrid
]

abbrev policy : RotationPolicy
policy = record { cadence = Cadence.daily; handoff_time = "09:00"; handoff_day = none }

abbrev group : String → RotationGroup
group id = record { id = id; members = id ∷ [] }

-- Two days after its anchor, "c" of "a", "b" and "c" is on duty.
abbrev current : RotationLayerSnapshot
current = record {
  enabled = true;
  policy = policy;
  groups = group "a" ∷ group "b" ∷ group "c" ∷ [];
  phase_anchor_slot_start = some 100;
  start_position = some (pos 0);
}

abbrev saved : List RotationGroup → LayerConfiguration
saved groups = record { enabled = true; policy = policy; groups = groups }

on_duty :
    active_group_at days current 350 ≡ ok (some (group "c", record { start = 300; end = 400 }))
unfolding active_group_at group_at
on_duty = refl

plan_layer-kept_example :
    (next : RotationLayerSnapshot × LayerTransition) × (h : RotationGroup) × (slot' : Slot)
    × (plan_layer grid_of (some current) "UTC" (saved (group "c" ∷ group "d" ∷ [])) "UTC" 350
        ≡ ok next)
    × (active_group_at days next.0 350 ≡ ok (some (h, slot')))
    × (h.id ≡ "c")
unfolding group_index_by_id
plan_layer-kept_example =
    plan_layer-kept grid_of grid_of-IsGrid current "UTC" (saved (group "c" ∷ group "d" ∷ [])) "UTC"
      350 {group = group "c"} {idx = 0} refl refl on_duty refl refl

plan_layer-successor_example :
    (next : RotationLayerSnapshot × LayerTransition) × (h : RotationGroup) × (plan_layer grid_of
        (some current)
        "UTC"
        (saved (group "b" ∷ group "a" ∷ []))
        "UTC"
        350
      ≡ ok next)
    × (next.1.group_selection ≡ GroupSelection.successor)
    × (active_group_at days next.0 350 ≡ ok (some (h, record { start = 300; end = 400 })))
    × (h.id ≡ "a")
unfolding group_index_by_id position_at group_at
plan_layer-successor_example =
    plan_layer-successor grid_of grid_of-IsGrid current "UTC" (saved (group "b" ∷ group "a" ∷ []))
      "UTC" 350 2 1 {ng = days} {group = group "c"} {heir = group "a"}
      {slot = record { start = 300; end = 400 }} {idx = 1} refl refl refl refl refl refl
      (ground arith) (ground arith) (λ j g lo hi f. ground arith) refl refl

-- A first plan, at instant 350.
abbrev first_plan : RotationLayerSnapshot × LayerTransition
unfolding planned
first_plan =
    planned (saved (group "a" ∷ group "b" ∷ [])) (some 300) (some (pos 0)) PhaseAction.reanchor
      GroupSelection.first

plan_layer-Phased_example :
    (is_off true first_plan.0.groups ≡ true)
      × (first_plan.0.phase_anchor_slot_start ≡ none)
      × (first_plan.0.start_position ≡ none)
    ⊎ (is_off true first_plan.0.groups ≡ false) × PhasedLayer days first_plan.0
unfolding plan_layer
plan_layer-Phased_example =
    plan_layer-Phased grid_of grid_of-IsGrid none "" (saved first_plan.0.groups) "UTC" 350
      {ng = days} {next = first_plan} refl refl
