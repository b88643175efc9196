-- ===== src/Outbound.antt =====
-- The delivery domain (internal/outbound).
pub mod Kinds
pub mod Intent
pub mod Keys
pub mod Retention
pub mod Policy
pub mod Machine
pub mod Leases
pub mod Endings
pub mod Evidence
pub mod Queueing
pub mod Withdrawal
pub mod Progress
pub mod Receipt
mod Examples
pub mod Slots
