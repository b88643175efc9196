-- ===== src/Rotation/Planning.antt =====
-- What a save makes of a layer (internal/rotation/transition.go): `planLayer` and what it calls.
--
-- The clones of the desired policy and groups are the values themselves.
pub mod Duty
pub mod Phase
pub mod Succession
use tokayops.Prelude.{
  String, ℕ, zero, suc, ◌+◌, ◌%◌, ◌-◌, Bool, true, false, ◌&&◌, Option, none, some, List, [], ◌∷◌,
  Result, ok, str_eq, ◌==◌, if◌then◌else◌, ◌>>=◌, length, ℤ, pos,
}
use tokayops.Rotation.{
  RotationPolicy, RotationGroup, RotationLayerSnapshot, LayerConfiguration, RotationError, Grid,
  equal_policy,
}
use tokayops.Rotation.Transition.{PhaseAction, GroupSelection, LayerTransition}
use tokayops.Rotation.Position.{is_off, position_at, group_at}

unfoldable pub same_ids : List RotationGroup → List RotationGroup → Bool
same_ids [] [] = true
same_ids (x ∷ xs) (y ∷ ys) = str_eq x.id y.id && same_ids xs ys
same_ids _ _ = false

unfoldable pub equal_ordered_group_ids : List RotationGroup → List RotationGroup → Bool
unfolding same_ids
equal_ordered_group_ids a b = length a == length b && same_ids a b

-- The loop of `groupIndexByID` from index `i` on; the code's -1 is `none`.
unfoldable pub index_from : ℕ → List RotationGroup → String → Option ℕ
index_from i [] id = none
index_from i (g ∷ gs) id =
    let rest = index_from (suc i) gs id in if str_eq g.id id then some i else rest

unfoldable pub group_index_by_id : List RotationGroup → String → Option ℕ
unfolding index_from
group_index_by_id gs id = index_from 0 gs id

-- `sameGrid && sameIDs`
unfoldable pub keeps_phase : RotationLayerSnapshot → String → LayerConfiguration → String → Bool
unfolding equal_policy equal_ordered_group_ids
keeps_phase current current_tz desired desired_tz =
    str_eq current_tz desired_tz
    && equal_policy current.policy desired.policy
    && equal_ordered_group_ids current.groups desired.groups

-- A layer as the plan leaves it.
unfoldable pub planned :
    LayerConfiguration
    → Option ℕ
    → Option ℤ
    → PhaseAction
    → GroupSelection
    → RotationLayerSnapshot × LayerTransition
planned desired anchor position action selection = (
  record {
    enabled = desired.enabled;
    policy = desired.policy;
    groups = desired.groups;
    phase_anchor_slot_start = anchor;
    start_position = position;
  },
  record { phase_action = action; group_selection = selection },
)

-- The loop over the groups that follow the one on duty, `n` of them from offset `i` on. The code's
-- read is in range, since the remainder is.
unfoldable pub successor_from :
    List RotationGroup → ℕ → List RotationGroup → ℕ → ℕ → Result RotationError (Option ℕ)
unfolding group_at group_index_by_id
successor_from current old_pos desired zero i = ok none
successor_from current old_pos desired (suc n) i =
    let rest = successor_from current old_pos desired n (suc i) in
    do
      candidate ← group_at current ((old_pos + i) % length current)
      elim (group_index_by_id desired candidate.id) [ none ↦ rest | some idx ↦ ok (some idx) ]

module _ (new_grid : String → RotationPolicy → Result RotationError Grid) where
  -- The closure `reanchor` of `planLayer`.
  unfoldable pub reanchored :
      LayerConfiguration
      → String
      → ℕ
      → GroupSelection
      → ℕ
      → Result RotationError (RotationLayerSnapshot × LayerTransition)
  unfolding planned
  reanchored desired desired_tz effective_at selection position = do
    grid ← new_grid desired_tz desired.policy
    ok (
        planned desired (some (grid.slot_containing effective_at).start) (some (pos position))
          PhaseAction.reanchor selection)

  -- The end of step 4: the group on duty is not desired any more.
  unfoldable pub succeed :
      List RotationGroup
      → ℕ
      → LayerConfiguration
      → String
      → ℕ
      → Result RotationError (RotationLayerSnapshot × LayerTransition)
  unfolding successor_from reanchored
  succeed current old_pos desired desired_tz effective_at = do
    next ← successor_from current old_pos desired.groups (length current - 1) 1
    elim next [
      | none ↦ reanchored desired desired_tz effective_at GroupSelection.first 0
      | some idx ↦ reanchored desired desired_tz effective_at GroupSelection.successor idx
    ]

  -- Steps 3 and 4, with a phase to go on from.
  unfoldable pub continued :
      RotationLayerSnapshot
      → String
      → LayerConfiguration
      → String
      → ℕ
      → Result RotationError (RotationLayerSnapshot × LayerTransition)
  unfolding position_at group_at keeps_phase planned group_index_by_id reanchored succeed
  continued current current_tz desired desired_tz effective_at = do
    old_grid ← new_grid current_tz current.policy
    old ← position_at old_grid current effective_at
    active ← group_at current.groups old.0
    if keeps_phase current current_tz desired desired_tz
        then ok (
            planned desired current.phase_anchor_slot_start current.start_position PhaseAction.carry
              GroupSelection.preserve)
        else elim (group_index_by_id desired.groups active.id) [
          | none ↦ succeed current.groups old.0 desired desired_tz effective_at
          | some idx ↦ reanchored desired desired_tz effective_at GroupSelection.preserve idx
        ]

  unfoldable pub plan_layer :
      Option RotationLayerSnapshot
      → String
      → LayerConfiguration
      → String
      → ℕ
      → Result RotationError (RotationLayerSnapshot × LayerTransition)
  unfolding is_off planned reanchored continued
  plan_layer current current_tz desired desired_tz effective_at =
      if is_off desired.enabled desired.groups
      then ok (planned desired none none PhaseAction.clear GroupSelection.none)
      else elim current [
        | none ↦ reanchored desired desired_tz effective_at GroupSelection.first 0
        | some layer ↦
            if is_off layer.enabled layer.groups
            then reanchored desired desired_tz effective_at GroupSelection.first 0
            else continued layer current_tz desired desired_tz effective_at
      ]
