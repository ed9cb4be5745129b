-- ===== src/Governance.antt =====
-- crates/momo-core/src/governance.rs: the typed runtime settings, their validation, and the
-- policy that decides what a request may override.
pub mod Settings
pub mod Validation
pub mod Overrides
pub mod Bounds
pub mod Acceptance
pub mod Audit
mod Tests
