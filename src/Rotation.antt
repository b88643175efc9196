-- ===== src/Rotation.antt =====
-- Rotations of a schedule (internal/rotation): who is on duty, and what a save makes of it.
--
-- An instant (time.Time) is a ℕ. The slots of a layer are asked of a grid, which the code knows by the
-- interface `Grid` of grid.go; `NewGrid`, which makes one from a timezone, enters as a parameter.
pub mod Integers
pub mod Zone
pub mod Calendar
pub mod Position
pub mod Transition
pub mod Planning
mod Examples
use tokayops.Prelude.{
  String, ℕ, Bool, true, false, ◌&&◌, ◌||◌, Option, none, some, List, Result, str_eq, ◌≡◌, ok, ℤ,
  same_int,
}

pub data Cadence : Type 0 where
  daily weekly : Cadence
  unlisted : String → Cadence

-- policy.go
pub record RotationPolicy : Type 0 where
  pub cadence : Cadence
  pub handoff_time : String
  pub handoff_day : Option ℤ

unfoldable pub same_cadence : Cadence → Cadence → Bool
same_cadence Cadence.daily Cadence.daily = true
same_cadence Cadence.weekly Cadence.weekly = true
same_cadence (Cadence.unlisted s) (Cadence.unlisted t) = str_eq s t
same_cadence _ _ = false

unfoldable pub same_day : Option ℤ → Option ℤ → Bool
same_day none none = true
same_day (some a) (some b) = same_int a b
same_day _ _ = false

unfoldable pub equal_policy : RotationPolicy → RotationPolicy → Bool
unfolding same_cadence same_day
equal_policy a b =
    same_cadence a.cadence b.cadence
    && str_eq a.handoff_time b.handoff_time
    && same_day a.handoff_day b.handoff_day

-- snapshot.go
pub record RotationGroup : Type 0 where
  pub id : String
  pub members : List String

pub record RotationLayerSnapshot : Type 0 where
  pub enabled : Bool
  pub policy : RotationPolicy
  pub groups : List RotationGroup
  pub phase_anchor_slot_start : Option ℕ
  pub start_position : Option ℤ

-- normalize.go
pub record LayerConfiguration : Type 0 where
  pub enabled : Bool
  pub policy : RotationPolicy
  pub groups : List RotationGroup

-- What the code refuses. `no_grid` is an error of `NewGrid`, `off_grid` one of `SlotsBetween`, and
-- `index_out_of_range` is the panic of a read beyond the end of a slice.
pub data RotationError : Type 0 where
  layer_off no_phase_pair : RotationError
  position_out_of_range : ℤ → ℕ → RotationError
  anchor_off_grid off_grid : ℕ → RotationError
  no_grid : String → RotationError
  index_out_of_range : RotationError

-- grid.go
pub record Slot : Type 0 where
  pub start : ℕ
  pub end : ℕ

pub record Grid : Type 0 where
  pub slot_containing : ℕ → Slot
  pub slots_between : ℕ → ℕ → Result RotationError ℤ

-- The part of the contract of `Grid` that a plan relies on: a boundary lies in the slot that starts
-- there, and there are no slots between a boundary and itself.
pub record IsGrid (g : Grid) : Type 0 where
  pub starts :
      (at : ℕ)
      → (g.slot_containing (g.slot_containing at).start).start ≡ (g.slot_containing at).start
  pub none_between :
      (at : ℕ)
      → g.slots_between (g.slot_containing at).start (g.slot_containing at).start ≡ ok (ℤ.pos 0)
