-- ===== src/Rotation/Planning/Phase.antt =====
-- The phase pair of a planned layer (internal/rotation/transition.go).
use tokayops.Prelude.{
  String, ℕ, zero, suc, ◌+◌, ◌-◌, ◌%◌, ◌<◌, ◌≡◌, ◌⊎◌, Bool, true, false, Option, none, some, List,
  Result, ok, length, arith, Bool-cases, Option-cases, inl, inr, first_step, pos,
}
use tokayops.Rotation.{
  RotationPolicy, RotationGroup, RotationLayerSnapshot, LayerConfiguration, RotationError, Slot,
  Grid, IsGrid,
}
use tokayops.Rotation.Position.{is_off, position_at, group_at, Phased, position_at-Phased}
use tokayops.Rotation.Planning.{
  group_index_by_id, keeps_phase, planned, reanchored, successor_from, succeed, continued,
  plan_layer,
}
use tokayops.Rotation.Planning.Duty.{
  group_index_by_id-eq-some, keeps_phase-eq-true, same_ids-length,
}
use tokayops.Rotation.Transition.{PhaseAction, GroupSelection, LayerTransition}

successor_from-inside :
    (groups : List RotationGroup) (p : ℕ) (desired : List RotationGroup) (n i : ℕ) {idx : ℕ}
    → successor_from groups p desired n i ≡ ok (some idx)
    → idx < length desired
unfolding successor_from
successor_from-inside groups p desired zero i h = ground arith
successor_from-inside groups p desired (suc n) i {idx} h =
    let (c, f, h1) = first_step (group_at groups ((p + i) % length groups)) h in
    elim (Option-cases (group_index_by_id desired c.id)) [
      | inl e ↦ successor_from-inside groups p desired n (suc i) (ground arith)
      | inr (x, e) ↦
          let (_, inside, _, _) = group_index_by_id-eq-some desired c.id e in
          let same : x ≡ idx = ground arith in ground arith
    ]

is_off-nonempty :
    (enabled : Bool) (groups : List RotationGroup)
    → is_off enabled groups ≡ false
    → 0 < length groups
unfolding is_off
is_off-nonempty enabled groups e = ground arith

-- A layer with this phase pair in a grid.
abbrev pub PhasedLayer : Grid → RotationLayerSnapshot → Type 0
PhasedLayer g layer =
    Phased g (length layer.groups) layer.phase_anchor_slot_start layer.start_position

module _ (new_grid : String → RotationPolicy → Result RotationError Grid)
    (grids : (tz : String) (p : RotationPolicy) (g : Grid) → new_grid tz p ≡ ok g → IsGrid g) where
  reanchored-Phased :
      (desired : LayerConfiguration) (tz : String) (at : ℕ) (s : GroupSelection) (idx : ℕ)
      {ng : Grid} {next : RotationLayerSnapshot × LayerTransition}
      → new_grid tz desired.policy ≡ ok ng
      → idx < length desired.groups
      → reanchored new_grid desired tz at s idx ≡ ok next
      → PhasedLayer ng next.0
  unfolding reanchored planned
  reanchored-Phased desired tz at s idx {ng} {next} n inside h =
      let aligned = (grids tz desired.policy ng n).starts at in
      let plan : next
          ≡ planned desired (some (ng.slot_containing at).start) (some (pos idx))
              PhaseAction.reanchor s =
        ground arith in
      let count : length next.0.groups ≡ length desired.groups = cc in
      ((ng.slot_containing at).start, idx, cc, cc, ground arith, aligned)

  succeed-Phased :
      (groups : List RotationGroup) (p : ℕ) (desired : LayerConfiguration) (tz : String) (at : ℕ)
      {ng : Grid} {next : RotationLayerSnapshot × LayerTransition}
      → new_grid tz desired.policy ≡ ok ng
      → 0 < length desired.groups
      → succeed new_grid groups p desired tz at ≡ ok next
      → PhasedLayer ng next.0
  unfolding succeed
  succeed-Phased groups p desired tz at {ng} {next} n inside h =
      let (heir, e, h1) =
        first_step (successor_from groups p desired.groups (length groups - 1) 1) h in
      elim (Option-cases heir) [
        | inl nobody ↦
            reanchored-Phased desired tz at GroupSelection.first 0 {next = next} n inside
              (ground arith)
        | inr (idx, found) ↦
            reanchored-Phased desired tz at GroupSelection.successor idx {next = next} n
              (successor_from-inside groups p desired.groups (length groups - 1) 1 cc)
              (ground arith)
      ]

  carried-Phased :
      (current : RotationLayerSnapshot) (tz : String) (desired : LayerConfiguration) (tz' : String)
      (at : ℕ) {og ng : Grid} {place : ℕ × Slot} {next : RotationLayerSnapshot × LayerTransition}
      → new_grid tz current.policy ≡ ok og
      → new_grid tz' desired.policy ≡ ok ng
      → position_at og current at ≡ ok place
      → keeps_phase current tz desired tz' ≡ true
      → next
        ≡ planned desired current.phase_anchor_slot_start current.start_position PhaseAction.carry
            GroupSelection.preserve
      → PhasedLayer ng next.0
  unfolding planned
  carried-Phased current tz desired tz' at {og} {ng} {place} {next} o n e kept plan =
      let (zone, policy, ids) = keeps_phase-eq-true current tz desired tz' kept in
      let (a, p, x, y, inside, aligned) = position_at-Phased og current at e in
      let grid : og ≡ ng = cc in
      let count = same_ids-length current.groups desired.groups ids in
      let count' : length next.0.groups ≡ length desired.groups = cc in
      (a, p, cc, cc, ground arith, cc)

  -- A plan of a layer that goes on from a phase.
  continued-Phased :
      (current : RotationLayerSnapshot) (tz : String) (desired : LayerConfiguration) (tz' : String)
      (at : ℕ) {ng : Grid} {next : RotationLayerSnapshot × LayerTransition}
      → new_grid tz' desired.policy ≡ ok ng
      → 0 < length desired.groups
      → continued new_grid current tz desired tz' at ≡ ok next
      → PhasedLayer ng next.0
  unfolding continued succeed
  continued-Phased current tz desired tz' at {ng} {next} n inside h =
      let (og, o, h1) = first_step (new_grid tz current.policy) h in
      let (old, e, h2) = first_step (position_at og current at) h1 in
      let (active, f, h3) = first_step (group_at current.groups old.0) h2 in
      elim (Bool-cases (keeps_phase current tz desired tz')) [
        | inl kept ↦
            carried-Phased current tz desired tz' at {next = next} o n e kept (ground arith)
        | inr moved ↦ elim (Option-cases (group_index_by_id desired.groups active.id)) [
          | inl missing ↦
              let succession : succeed new_grid current.groups old.0 desired tz' at ≡ ok next =
                ground arith in
              succeed-Phased current.groups old.0 desired tz' at n inside succession
          | inr (idx, found) ↦
              let (_, within, _, _) = group_index_by_id-eq-some desired.groups active.id found in
              reanchored-Phased desired tz' at GroupSelection.preserve idx {next = next} n within
                (ground arith)
        ]
      ]

  started-Phased :
      (current : Option RotationLayerSnapshot) (tz : String) (desired : LayerConfiguration)
      (tz' : String) (at : ℕ) {ng : Grid} {next : RotationLayerSnapshot × LayerTransition}
      → new_grid tz' desired.policy ≡ ok ng
      → is_off desired.enabled desired.groups ≡ false
      → plan_layer new_grid current tz desired tz' at ≡ ok next
      → PhasedLayer ng next.0
  unfolding plan_layer
  started-Phased none tz desired tz' at {ng} {next} n on h =
      reanchored-Phased desired tz' at GroupSelection.first 0 {next = next} n
        (is_off-nonempty desired.enabled desired.groups on) (ground arith)
  started-Phased (some layer) tz desired tz' at {ng} {next} n on h =
      let inside = is_off-nonempty desired.enabled desired.groups on in
      elim (Bool-cases (is_off layer.enabled layer.groups)) [
        | inl idle ↦
            reanchored-Phased desired tz' at GroupSelection.first 0 {next = next} n inside
              (ground arith)
        | inr busy ↦ continued-Phased layer tz desired tz' at {next = next} n inside (ground arith)
      ]

  -- The phase pair of a planned layer: it has none when the layer is disabled or has no groups; and
  -- otherwise, when its grid exists, it has both, an anchor that is a boundary of this grid and a
  -- start position that is the index of one of its groups. Every grid meets its contract.
  pub plan_layer-Phased :
      (current : Option RotationLayerSnapshot) (tz : String) (desired : LayerConfiguration)
      (tz' : String) (at : ℕ) {ng : Grid} {next : RotationLayerSnapshot × LayerTransition}
      → new_grid tz' desired.policy ≡ ok ng
      → plan_layer new_grid current tz desired tz' at ≡ ok next
      → (is_off desired.enabled desired.groups ≡ true)
          × (next.0.phase_anchor_slot_start ≡ none)
          × (next.0.start_position ≡ none)
        ⊎ (is_off desired.enabled desired.groups ≡ false) × PhasedLayer ng next.0
  unfolding plan_layer
  plan_layer-Phased current tz desired tz' at {ng} {next} n h =
      elim (Bool-cases (is_off desired.enabled desired.groups)) [
        | inl off ↦ inl (off, ground arith, ground arith)
        | inr on ↦
            inr (on, started-Phased current tz desired tz' at {next = next} n on (ground arith))
      ]
