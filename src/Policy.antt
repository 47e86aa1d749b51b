-- ===== src/Policy.antt =====
-- The inbound policy of packages/node/src/policy: validation, decision, audit and the gate.
pub mod Types
pub mod Mention
pub mod Decide
pub mod Validate
pub mod Audit
pub mod Gate
pub mod Examples
