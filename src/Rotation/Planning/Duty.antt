-- ===== src/Rotation/Planning/Duty.antt =====
-- Who is on duty right after a save (internal/rotation/transition.go).
use tokayops.Prelude.{
  String, ℕ, zero, suc, ◌+◌, ◌<◌, ◌≡◌, Bool, true, false, Option, none, some, List, [], ◌∷◌, Result,
  ok, str_eq, length, arith, refl, eq_iff, Bool-cases, inl, inr, ℤ, pos, negsuc, same_int,
}
use tokayops.Rotation.{
  RotationPolicy, RotationGroup, RotationLayerSnapshot, LayerConfiguration, RotationError, Slot,
  Grid, IsGrid, Cadence, same_cadence, same_day, equal_policy,
}
use tokayops.Rotation.Integers.{floor_mod_stay}
use tokayops.Rotation.Position.{
  is_off, position_from, position_at, group_at, active_group_at, active_group_at-place,
  active_group_at-eq-ok,
}
use tokayops.Rotation.Planning.{
  same_ids, equal_ordered_group_ids, index_from, group_index_by_id, keeps_phase, planned,
  reanchored, continued, plan_layer,
}
use tokayops.Rotation.Transition.{PhaseAction, GroupSelection, LayerTransition}

index_from-eq-some :
    (i : ℕ) (gs : List RotationGroup) (id : String) {j : ℕ}
    → index_from i gs id ≡ some j
    → (k : ℕ) × (h : RotationGroup) × (j ≡ i + k)
      × (k < length gs)
      × (group_at gs k ≡ ok h)
      × (h.id ≡ id)
unfolding index_from group_at
index_from-eq-some i [] id {j} h = ground arith
index_from-eq-some i (g ∷ gs) id {j} h = elim (Bool-cases (str_eq g.id id)) [
  | inl e ↦ (0, g, ground arith, ground arith, refl, ground (arith, eq_iff g.id id))
  | inr e ↦
      let (k, x, eq, inside, at, same) = index_from-eq-some (suc i) gs id {j = j} (ground arith) in
      (suc k, x, ground arith, ground arith, at, same)
]

-- The group found for an id is in the list, and has the id.
pub group_index_by_id-eq-some :
    (gs : List RotationGroup) (id : String) {idx : ℕ}
    → group_index_by_id gs id ≡ some idx
    → (h : RotationGroup) × (idx < length gs) × (group_at gs idx ≡ ok h) × (h.id ≡ id)
unfolding group_index_by_id
group_index_by_id-eq-some gs id {idx} e =
    let (k, h, eq, inside, at, same) = index_from-eq-some 0 gs id e in
    let found : idx ≡ k = ground arith in (h, ground arith, cc, same)

-- A position that is anchored at the slot of an instant is the position then.
position_from-start :
    (g : Grid) (n at idx : ℕ)
    → IsGrid g
    → idx < n
    → position_from g n at (some (g.slot_containing at).start) (some (pos idx))
      ≡ ok (idx, g.slot_containing at)
unfolding position_from
position_from-start g n at idx grid inside =
    let none_between : g.slots_between (g.slot_containing (g.slot_containing at).start).start
          (g.slot_containing at).start
        ≡ ok (pos 0) =
      cc (grid.starts at, grid.none_between at) in
    ground (arith, none_between, grid.starts at, floor_mod_stay idx n)

-- A layer that is anchored at the slot of an instant has the group of its start position on duty then.
pub planned-on_duty :
    (g : Grid) (desired : LayerConfiguration) (at idx : ℕ) (a : PhaseAction) (s : GroupSelection)
    {h : RotationGroup}
    → IsGrid g
    → is_off desired.enabled desired.groups ≡ false
    → idx < length desired.groups
    → group_at desired.groups idx ≡ ok h
    → active_group_at g
        (planned desired (some (g.slot_containing at).start) (some (pos idx)) a s).0
        at
      ≡ ok (some (h, g.slot_containing at))
unfolding planned
planned-on_duty g desired at idx a s grid on inside e =
    active_group_at-place g _ at on (position_from-start g _ at idx grid inside) e

same_int-eq : (a b : ℤ) → same_int a b ≡ true → a ≡ b
same_int-eq (pos a) (pos b) h = ground arith
same_int-eq (negsuc a) (negsuc b) h = ground arith
same_int-eq (pos a) (negsuc b) h = ground arith
same_int-eq (negsuc a) (pos b) h = ground arith

same_day-eq : (a b : Option ℤ) → same_day a b ≡ true → a ≡ b
unfolding same_day
same_day-eq none none h = refl
same_day-eq (some a) (some b) h = cc (same_int-eq a b h)
same_day-eq none (some b) h = ground arith
same_day-eq (some a) none h = ground arith

same_cadence-eq : (a b : Cadence) → same_cadence a b ≡ true → a ≡ b
unfolding same_cadence
same_cadence-eq (Cadence.unlisted s) (Cadence.unlisted t) h = ground (arith, eq_iff s t)
same_cadence-eq a b h = ground arith

equal_policy-eq : (a b : RotationPolicy) → equal_policy a b ≡ true → a ≡ b
unfolding equal_policy
equal_policy-eq a b h = ground (
  arith,
  same_cadence-eq a.cadence b.cadence,
  eq_iff a.handoff_time b.handoff_time,
  same_day-eq a.handoff_day b.handoff_day,
)

pub same_ids-length : (xs ys : List RotationGroup) → same_ids xs ys ≡ true → length xs ≡ length ys
unfolding same_ids
same_ids-length [] [] h = refl
same_ids-length [] (y ∷ ys) h = ground arith
same_ids-length (x ∷ xs) [] h = ground arith
same_ids-length (x ∷ xs) (y ∷ ys) h = ground (arith, same_ids-length xs ys)

pub same_ids-group_at :
    (xs ys : List RotationGroup) (p : ℕ) {g : RotationGroup}
    → same_ids xs ys ≡ true
    → group_at xs p ≡ ok g
    → (h : RotationGroup) × (group_at ys p ≡ ok h) × (h.id ≡ g.id)
unfolding same_ids group_at
same_ids-group_at [] ys p h e = ground arith
same_ids-group_at (x ∷ xs) [] p h e = ground arith
same_ids-group_at (x ∷ xs) (y ∷ ys) zero h e = (y, refl, ground (arith, eq_iff x.id y.id))
same_ids-group_at (x ∷ xs) (y ∷ ys) (suc p) h e = same_ids-group_at xs ys p (ground arith) e

-- What `sameGrid && sameIDs` says.
pub keeps_phase-eq-true :
    (current : RotationLayerSnapshot) (tz : String) (desired : LayerConfiguration) (tz' : String)
    → keeps_phase current tz desired tz' ≡ true
    → (tz ≡ tz')
      × (current.policy ≡ desired.policy)
      × (same_ids current.groups desired.groups ≡ true)
unfolding keeps_phase equal_ordered_group_ids
keeps_phase-eq-true current tz desired tz' h =
    ground (arith, eq_iff tz tz', equal_policy-eq current.policy desired.policy)

-- No phase to go on from.
abbrev pub is_idle : Option RotationLayerSnapshot → Bool
is_idle none = true
is_idle (some layer) = is_off layer.enabled layer.groups

module _ (new_grid : String → RotationPolicy → Result RotationError Grid)
    (grids : (tz : String) (p : RotationPolicy) (g : Grid) → new_grid tz p ≡ ok g → IsGrid g) where
  -- A plan that carries the phase.
  carried-on_duty :
      (current : RotationLayerSnapshot) (tz : String) (desired : LayerConfiguration) (tz' : String)
      (at : ℕ) {og ng : Grid} {group : RotationGroup} {slot : Slot}
      → new_grid tz current.policy ≡ ok og
      → new_grid tz' desired.policy ≡ ok ng
      → active_group_at og current at ≡ ok (some (group, slot))
      → is_off desired.enabled desired.groups ≡ false
      → keeps_phase current tz desired tz' ≡ true
      → (h : RotationGroup) × (slot' : Slot) × (active_group_at ng
            (planned desired current.phase_anchor_slot_start current.start_position
              PhaseAction.carry GroupSelection.preserve).0
            at
          ≡ ok (some (h, slot')))
        × (h.id ≡ group.id)
  unfolding planned
  carried-on_duty current tz desired tz' at {og} {ng} {group} o n duty on kept =
      let (place, was_on, e, f) = active_group_at-eq-ok og current at duty in
      let (zone, policy, ids) = keeps_phase-eq-true current tz desired tz' kept in
      let (h, g, same) = same_ids-group_at current.groups desired.groups place.0 ids f in
      let count = same_ids-length current.groups desired.groups ids in
      let grid : og ≡ ng = cc in
      let moved : position_from ng (length desired.groups) at current.phase_anchor_slot_start
            current.start_position
          ≡ ok place =
        cc in
      (h, place.1, active_group_at-place ng _ at on moved g, same)

  -- A plan for a layer that is on duty, whose group on duty is still desired.
  continued-kept :
      (current : RotationLayerSnapshot) (tz : String) (desired : LayerConfiguration) (tz' : String)
      (at : ℕ) {og ng : Grid} {group : RotationGroup} {slot : Slot} {idx : ℕ}
      → new_grid tz current.policy ≡ ok og
      → new_grid tz' desired.policy ≡ ok ng
      → active_group_at og current at ≡ ok (some (group, slot))
      → is_off desired.enabled desired.groups ≡ false
      → group_index_by_id desired.groups group.id ≡ some idx
      → (next : RotationLayerSnapshot × LayerTransition) × (h : RotationGroup) × (slot' : Slot)
        × (continued new_grid current tz desired tz' at ≡ ok next)
        × (active_group_at ng next.0 at ≡ ok (some (h, slot')))
        × (h.id ≡ group.id)
  unfolding continued position_at reanchored
  continued-kept current tz desired tz' at {og} {ng} {group} {slot} {idx} o n duty on found =
      let (place, was_on, e, f) = active_group_at-eq-ok og current at duty in
      elim (Bool-cases (keeps_phase current tz desired tz')) [
        | inl kept ↦
            let (h, slot', next_duty, same) =
              carried-on_duty current tz desired tz' at o n duty on kept in
            (
              planned desired current.phase_anchor_slot_start current.start_position
                  PhaseAction.carry GroupSelection.preserve,
              h,
              slot',
              ground arith,
              next_duty,
              same,
            )
        | inr moved ↦
            let (h, inside, g, same) = group_index_by_id-eq-some desired.groups group.id found in
            (
              planned desired (some (ng.slot_containing at).start) (some (pos idx))
                  PhaseAction.reanchor GroupSelection.preserve,
              h,
              ng.slot_containing at,
              ground arith,
              planned-on_duty ng desired at idx PhaseAction.reanchor GroupSelection.preserve
                  (grids tz' _ ng n) on inside g,
              same,
            )
      ]

  -- A save leaves on duty who is on duty: when a group is on duty at the instant that a plan takes
  -- effect, and the saved layer is enabled and still has a group with its id, the plan succeeds and a
  -- group with this id is on duty at that instant under the new timezone and policy, whatever else the
  -- save changes. Both grids exist, and every grid meets its contract.
  pub plan_layer-kept :
      (current : RotationLayerSnapshot) (tz : String) (desired : LayerConfiguration) (tz' : String)
      (at : ℕ) {og ng : Grid} {group : RotationGroup} {slot : Slot} {idx : ℕ}
      → new_grid tz current.policy ≡ ok og
      → new_grid tz' desired.policy ≡ ok ng
      → active_group_at og current at ≡ ok (some (group, slot))
      → desired.enabled ≡ true
      → group_index_by_id desired.groups group.id ≡ some idx
      → (next : RotationLayerSnapshot × LayerTransition) × (h : RotationGroup) × (slot' : Slot)
        × (plan_layer new_grid (some current) tz desired tz' at ≡ ok next)
        × (active_group_at ng next.0 at ≡ ok (some (h, slot')))
        × (h.id ≡ group.id)
  unfolding plan_layer is_off
  plan_layer-kept current tz desired tz' at {og} {ng} {group} {slot} {idx} o n duty enabled found =
      let (place, was_on, e, f) = active_group_at-eq-ok og current at duty in
      let (g, inside, _, _) = group_index_by_id-eq-some desired.groups group.id found in
      let on : is_off desired.enabled desired.groups ≡ false = ground arith in
      let (next, h, slot', plan, new_duty, same) =
        continued-kept current tz desired tz' at o n duty on found in
      (next, h, slot', ground arith, new_duty, same)

  -- A layer that starts afresh: when there was no layer, or one that is disabled or has no groups, a
  -- plan for an enabled layer with groups succeeds, and its first group is on duty at that instant.
  pub plan_layer_fresh :
      (current : Option RotationLayerSnapshot) (tz : String) (desired : LayerConfiguration)
      (tz' : String) (at : ℕ) {ng : Grid} {first : RotationGroup} {others : List RotationGroup}
      → is_idle current ≡ true
      → new_grid tz' desired.policy ≡ ok ng
      → desired.enabled ≡ true
      → desired.groups ≡ first ∷ others
      → (next : RotationLayerSnapshot × LayerTransition) × (plan_layer new_grid current tz desired
            tz' at
          ≡ ok next)
        × (active_group_at ng next.0 at ≡ ok (some (first, ng.slot_containing at)))
  unfolding plan_layer is_off reanchored group_at
  plan_layer_fresh current tz desired tz' at {ng} {first} {others} idle n enabled groups =
      let on : is_off desired.enabled desired.groups ≡ false = ground arith in
      let zeroth : group_at desired.groups 0 ≡ ok first = cc in
      (
        planned desired (some (ng.slot_containing at).start) (some (pos 0)) PhaseAction.reanchor
            GroupSelection.first,
        ground arith,
        planned-on_duty ng desired at 0 PhaseAction.reanchor GroupSelection.first (grids tz' _ ng n)
            on (ground arith) zeroth,
      )
