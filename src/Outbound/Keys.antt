-- ===== src/Outbound/Keys.antt =====
-- The identity grammar of outbound delivery (internal/outbound/keys).
pub mod Codec
pub mod Digest
pub mod Grammar
pub mod Escalation
pub mod Provider
pub mod Webhook
pub mod Handoff
pub mod Fingerprint
pub mod Commitment
pub mod Material
pub mod Admission
mod Examples
