-- ===== src/Rotation/Position.antt =====
-- Who is on duty at an instant (internal/rotation/position.go).
use tokayops.Prelude.{
  ℕ, zero, suc, ◌<◌, ◌≡◌, Bool, true, false, not, ◌||◌, Option, none, some, List, [], ◌∷◌, Result,
  ok, err, ltb, ◌==◌, if◌then◌else◌, ◌>>=◌, length, arith, refl, refuse_if, ◌>>◌, ℤ, pos, negsuc,
}
use tokayops.Rotation.{
  RotationGroup, RotationLayerSnapshot, RotationError, Slot, Grid, layer_off, no_phase_pair,
  position_out_of_range, anchor_off_grid, index_out_of_range,
}
use tokayops.Rotation.Integers.{moved_by, floor_mod, floor_mod_bound}

-- The layer that produces no assignments.
unfoldable pub is_off : Bool → List RotationGroup → Bool
is_off enabled groups = not enabled || length groups == 0

-- `PositionAt` from the phase pair on.
unfoldable pub position_from : Grid → ℕ → ℕ → Option ℕ → Option ℤ → Result RotationError (ℕ × Slot)
unfolding moved_by floor_mod
position_from g n at none start = err no_phase_pair
position_from g n at (some anchor) none = err no_phase_pair
position_from g n at (some anchor) (some (negsuc p)) = err (position_out_of_range (negsuc p) n)
position_from g n at (some anchor) (some (pos p)) = do
  refuse_if (not (ltb p n)) (position_out_of_range (pos p) n)
  refuse_if (not ((g.slot_containing anchor).start == anchor)) (anchor_off_grid anchor)
  elapsed ← g.slots_between (g.slot_containing anchor).start (g.slot_containing at).start
  ok (floor_mod (moved_by p elapsed) n, g.slot_containing at)

unfoldable pub position_at : Grid → RotationLayerSnapshot → ℕ → Result RotationError (ℕ × Slot)
unfolding is_off position_from
position_at g layer at =
    if is_off layer.enabled layer.groups
    then err layer_off
    else position_from g (length layer.groups) at layer.phase_anchor_slot_start layer.start_position

-- `layer.Groups[pos]`
unfoldable pub group_at : List RotationGroup → ℕ → Result RotationError RotationGroup
group_at [] p = err index_out_of_range
group_at (g ∷ groups) zero = ok g
group_at (g ∷ groups) (suc p) = group_at groups p

-- No group on duty is `none`.
unfoldable pub active_group_at :
    Grid → RotationLayerSnapshot → ℕ → Result RotationError (Option (RotationGroup × Slot))
unfolding is_off position_at
active_group_at g layer at = if is_off layer.enabled layer.groups then ok none else (do
  place ← position_at g layer at
  group ← group_at layer.groups place.0
  ok (some (group, place.1)))

position_from_bound :
    (g : Grid) (n at : ℕ) (anchor : Option ℕ) (start : Option ℤ) {place : ℕ × Slot}
    → position_from g n at anchor start ≡ ok place
    → place.0 < n
unfolding position_from
position_from_bound g n at none start h = ground arith
position_from_bound g n at (some anchor) none h = ground arith
position_from_bound g n at (some anchor) (some (negsuc p)) h = ground arith
position_from_bound g n at (some anchor) (some (pos p)) h =
    ground (arith, λ (e : ℤ). floor_mod_bound (moved_by p e) n)

-- What an answer of `position_at` says of the layer.
position_at-eq-ok :
    (g : Grid) (layer : RotationLayerSnapshot) (at : ℕ) {place : ℕ × Slot}
    → position_at g layer at ≡ ok place
    → (is_off layer.enabled layer.groups ≡ false)
      × (position_from g (length layer.groups) at layer.phase_anchor_slot_start layer.start_position
          ≡ ok place)
unfolding position_at
position_at-eq-ok g layer at h = ground arith

-- A position is the index of one of the layer's groups.
pub position_at_bound :
    (g : Grid) (layer : RotationLayerSnapshot) (at : ℕ) {place : ℕ × Slot}
    → position_at g layer at ≡ ok place
    → place.0 < length layer.groups
position_at_bound g layer at h =
    let (on, e) = position_at-eq-ok g layer at h in
    position_from_bound g (length layer.groups) at layer.phase_anchor_slot_start
      layer.start_position e

pub group_at_inside :
    (groups : List RotationGroup) (p : ℕ)
    → p < length groups
    → (g : RotationGroup) × (group_at groups p ≡ ok g)
unfolding group_at
group_at_inside [] p h = ground arith
group_at_inside (g ∷ groups) zero h = (g, refl)
group_at_inside (g ∷ groups) (suc p) h = group_at_inside groups p (ground arith)

pub active_group_at-place :
    (g : Grid) (layer : RotationLayerSnapshot) (at : ℕ) {place : ℕ × Slot} {group : RotationGroup}
    → is_off layer.enabled layer.groups ≡ false
    → position_from g (length layer.groups) at layer.phase_anchor_slot_start layer.start_position
      ≡ ok place
    → group_at layer.groups place.0 ≡ ok group
    → active_group_at g layer at ≡ ok (some (group, place.1))
unfolding active_group_at position_at
active_group_at-place g layer at on e f = ground arith

-- Whenever the code finds a position, it finds the group there: the read of the groups stays inside
-- the slice.
pub active_group_at-position_at :
    (g : Grid) (layer : RotationLayerSnapshot) (at : ℕ) {place : ℕ × Slot}
    → position_at g layer at ≡ ok place
    → (group : RotationGroup) × (group_at layer.groups place.0 ≡ ok group)
      × (active_group_at g layer at ≡ ok (some (group, place.1)))
active_group_at-position_at g layer at h =
    let (on, e) = position_at-eq-ok g layer at h in
    let (group, f) = group_at_inside layer.groups _ (position_at_bound g layer at h) in
    (group, f, active_group_at-place g layer at on e f)

-- Where the group on duty stands.
pub active_group_at-eq-ok :
    (g : Grid) (layer : RotationLayerSnapshot) (at : ℕ) {group : RotationGroup} {slot : Slot}
    → active_group_at g layer at ≡ ok (some (group, slot))
    → (place : ℕ × Slot) × (is_off layer.enabled layer.groups ≡ false)
      × (position_from g (length layer.groups) at layer.phase_anchor_slot_start layer.start_position
          ≡ ok place)
      × (group_at layer.groups place.0 ≡ ok group)
unfolding active_group_at position_at
active_group_at-eq-ok g layer at h = ground arith

-- A position is one of a layer that is on.
pub position_at-on :
    (g : Grid) (layer : RotationLayerSnapshot) (at : ℕ) {p : ℕ} {slot : Slot}
    → position_at g layer at ≡ ok (p, slot)
    → (is_off layer.enabled layer.groups ≡ false) × (p < length layer.groups)
position_at-on g layer at h = ((position_at-eq-ok g layer at h).0, position_at_bound g layer at h)

-- An enabled layer with a group is on.
pub is_on :
    (enabled : Bool) (groups : List RotationGroup) {i : ℕ}
    → enabled ≡ true
    → i < length groups
    → is_off enabled groups ≡ false
unfolding is_off
is_on enabled groups e h = ground arith

-- The phase pair of a layer that is on: an anchor on a boundary of the grid, and the index of a group.
abbrev pub Phased : Grid → ℕ → Option ℕ → Option ℤ → Type 0
Phased g n anchor start =
    (a : ℕ) × (p : ℕ) × (anchor ≡ some a)
    × (start ≡ some (pos p))
    × (p < n)
    × ((g.slot_containing a).start ≡ a)

pub position_from-Phased :
    (g : Grid) (n at : ℕ) (anchor : Option ℕ) (start : Option ℤ) {place : ℕ × Slot}
    → position_from g n at anchor start ≡ ok place
    → Phased g n anchor start
unfolding position_from
position_from-Phased g n at none start h = ground arith
position_from-Phased g n at (some anchor) none h = ground arith
position_from-Phased g n at (some anchor) (some (negsuc p)) h = ground arith
position_from-Phased g n at (some anchor) (some (pos p)) h =
    (anchor, p, refl, refl, ground arith, ground arith)

pub position_at-Phased :
    (g : Grid) (layer : RotationLayerSnapshot) (at : ℕ) {place : ℕ × Slot}
    → position_at g layer at ≡ ok place
    → Phased g (length layer.groups) layer.phase_anchor_slot_start layer.start_position
position_at-Phased g layer at h =
    position_from-Phased g (length layer.groups) at layer.phase_anchor_slot_start
      layer.start_position (position_at-eq-ok g layer at h).1
