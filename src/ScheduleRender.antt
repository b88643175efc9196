-- ===== src/ScheduleRender.antt =====
-- The rendered schedule (internal/schedulerender).
pub mod Merge
pub mod Slot
mod Examples
use tokayops.Prelude.{String, ℕ, List}

-- types.go
pub record Assignment : Type 0 where
  pub schedule_revision_id : String
  pub layer : String
  pub source : String
  pub group_id : String
  pub user_ids : List String
  pub grid_slot_start : ℕ
  pub grid_slot_end : ℕ
  pub assignment_start : ℕ
  pub assignment_end : ℕ
  pub override_id : String
  pub override_revision_id : String
