-- ===== src/Rotation/Planning/Succession.antt =====
-- Who takes over when the group on duty is saved away (internal/rotation/transition.go).
use tokayops.Prelude.{
  String, ℕ, zero, suc, ◌+◌, ◌-◌, ◌%◌, ◌<◌, ◌≤◌, ◌≡◌, true, false, none, some, List, Result, ok,
  ◌==◌, length, arith, refl, eq_iff, str_eq, [], ◌∷◌, Bool-cases, inl, inr, pos,
}
use tokayops.Rotation.{
  RotationPolicy, RotationGroup, RotationLayerSnapshot, LayerConfiguration, RotationError, Slot,
  Grid, IsGrid,
}
use tokayops.Rotation.Position.{
  is_off, position_at, group_at, group_at_inside, active_group_at, position_at-on, is_on,
}
use tokayops.Rotation.Planning.{
  index_from, group_index_by_id, keeps_phase, planned, reanchored, successor_from, succeed,
  continued, plan_layer,
}
use tokayops.Rotation.Planning.Duty.{
  group_index_by_id-eq-some, planned-on_duty, keeps_phase-eq-true, same_ids-group_at,
}
use tokayops.Rotation.Transition.{PhaseAction, GroupSelection, LayerTransition}

-- The `j`-th group after the one at `p`, in the order of the duty.
abbrev pub follows : List RotationGroup → ℕ → ℕ → Result RotationError RotationGroup
follows groups p j = group_at groups ((p + j) % length groups)

-- No group from offset `i` up to `k` is desired.
abbrev pub NoneBefore : List RotationGroup → ℕ → List RotationGroup → ℕ → ℕ → Type 0
NoneBefore groups p desired i k =
    (j : ℕ) (g : RotationGroup)
    → i ≤ j
    → j < k
    → follows groups p j ≡ ok g
    → group_index_by_id desired g.id ≡ none

successor_from-first :
    (groups : List RotationGroup) (p : ℕ) (desired : List RotationGroup) (n i k : ℕ)
    {heir : RotationGroup} {idx : ℕ}
    → i ≤ k
    → k < i + n
    → p < length groups
    → NoneBefore groups p desired i k
    → follows groups p k ≡ ok heir
    → group_index_by_id desired heir.id ≡ some idx
    → successor_from groups p desired n i ≡ ok (some idx)
unfolding successor_from
successor_from-first groups p desired zero i k lo hi inside before at found = ground arith
successor_from-first groups p desired (suc n) i k {heir} lo hi inside before at found =
    elim (Bool-cases (i == k)) [
      | inl e ↦
          let same : i ≡ k = ground arith in
          let hit : follows groups p i ≡ ok heir = cc in ground arith
      | inr e ↦
          let (g, f) = group_at_inside groups ((p + i) % length groups) (grind arith) in
          let passed = before i g (ground arith) (ground arith) f in
          let rest =
            successor_from-first groups p desired n (suc i) k (ground arith) (ground arith) inside
              (λ j h lo'. before j h (ground arith)) at found in
          ground arith
    ]

successor_from-none :
    (groups : List RotationGroup) (p : ℕ) (desired : List RotationGroup) (n i : ℕ)
    → p < length groups
    → NoneBefore groups p desired i (i + n)
    → successor_from groups p desired n i ≡ ok none
unfolding successor_from
successor_from-none groups p desired zero i inside before = refl
successor_from-none groups p desired (suc n) i inside before =
    let (g, f) = group_at_inside groups ((p + i) % length groups) (grind arith) in
    let passed = before i g (ground arith) (ground arith) f in
    let rest =
      successor_from-none groups p desired n (suc i) inside
        (λ j h lo hi. before j h (ground arith) (ground arith)) in
    ground arith

index_from-eq-none :
    (i : ℕ) (gs : List RotationGroup) (id : String) (p : ℕ) {h : RotationGroup}
    → index_from i gs id ≡ none
    → group_at gs p ≡ ok h
    → str_eq h.id id ≡ false
unfolding index_from group_at
index_from-eq-none i [] id p e f = ground arith
index_from-eq-none i (g ∷ gs) id zero e f = ground arith
index_from-eq-none i (g ∷ gs) id (suc p) e f = index_from-eq-none (suc i) gs id p (ground arith) f

-- A phase is not carried over to groups that lack the one on duty.
keeps_phase-eq-false :
    (current : RotationLayerSnapshot) (tz : String) (desired : LayerConfiguration) (tz' : String)
    (p : ℕ) {group : RotationGroup}
    → group_at current.groups p ≡ ok group
    → group_index_by_id desired.groups group.id ≡ none
    → keeps_phase current tz desired tz' ≡ false
unfolding group_index_by_id
keeps_phase-eq-false current tz desired tz' p {group} f missing =
    elim (Bool-cases (keeps_phase current tz desired tz')) [
      | inl kept ↦
          let (_, _, ids) = keeps_phase-eq-true current tz desired tz' kept in
          let (h, g, same) = same_ids-group_at current.groups desired.groups p ids f in
          let differ = index_from-eq-none 0 desired.groups group.id p missing g in
          ground (arith, eq_iff h.id group.id)
      | inr e ↦ e
    ]

module _ (new_grid : String → RotationPolicy → Result RotationError Grid)
    (grids : (tz : String) (p : RotationPolicy) (g : Grid) → new_grid tz p ≡ ok g → IsGrid g) where
  -- A save that drops the group on duty hands over to the group that would have followed: when a group
  -- is on duty at position `p` at the instant that a plan takes effect, and no group with its id is
  -- desired, nor with the id of any of the next ones before the `k`-th after it, but one is with the
  -- id of the `k`-th, the plan succeeds as a succession, and a group with that id is on duty at that
  -- instant. Both grids exist, and every grid meets its contract.
  pub plan_layer-successor :
      (current : RotationLayerSnapshot) (tz : String) (desired : LayerConfiguration) (tz' : String)
      (at p k : ℕ) {og ng : Grid} {group heir : RotationGroup} {slot : Slot} {idx : ℕ}
      → new_grid tz current.policy ≡ ok og
      → new_grid tz' desired.policy ≡ ok ng
      → position_at og current at ≡ ok (p, slot)
      → group_at current.groups p ≡ ok group
      → desired.enabled ≡ true
      → group_index_by_id desired.groups group.id ≡ none
      → 0 < k
      → k < length current.groups
      → NoneBefore current.groups p desired.groups 1 k
      → follows current.groups p k ≡ ok heir
      → group_index_by_id desired.groups heir.id ≡ some idx
      → (next : RotationLayerSnapshot × LayerTransition) × (h : RotationGroup) × (plan_layer
            new_grid
            (some current)
            tz
            desired
            tz'
            at
          ≡ ok next)
        × (next.1.group_selection ≡ GroupSelection.successor)
        × (active_group_at ng next.0 at ≡ ok (some (h, ng.slot_containing at)))
        × (h.id ≡ heir.id)
  unfolding plan_layer continued succeed reanchored
  plan_layer-successor current tz desired tz' at p k {og} {ng} {group} {heir} {slot} {idx} o n
        position f enabled missing lo hi before follow found =
      let moved = keeps_phase-eq-false current tz desired tz' p f missing in
      let (was_on, inside) = position_at-on og current at position in
      let next =
        successor_from-first current.groups p desired.groups (length current.groups - 1) 1 k
          (ground arith) (ground arith) inside before follow found in
      let (h, within, g, same) = group_index_by_id-eq-some desired.groups heir.id found in
      let on : is_off desired.enabled desired.groups ≡ false =
        is_on desired.enabled desired.groups enabled within in
      (
        planned desired (some (ng.slot_containing at).start) (some (pos idx)) PhaseAction.reanchor
            GroupSelection.successor,
        h,
        ground arith,
        refl,
        planned-on_duty ng desired at idx PhaseAction.reanchor GroupSelection.successor
            (grids tz' _ ng n) on within g,
        same,
      )
