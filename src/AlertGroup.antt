-- ===== src/AlertGroup.antt =====
-- Alert groups (internal/alertgroup, internal/model).
pub mod Alert
pub mod Merge
mod Examples
