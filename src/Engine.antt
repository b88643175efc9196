-- ===== src/Engine.antt =====
-- internal/engine: the plan of an escalation, and the tick that admits it.
pub mod Types
pub mod Roster
pub mod Resolver
pub mod Steps
pub mod Records
pub mod Plan
pub mod Tick
mod Examples
