-- ===== src/Lifecycle.antt =====
-- crates/momo-memory/src/lifecycle.rs: how the memories of a Space age with the completed turns of
-- its conversations.
pub mod Policy
pub mod Ledger
pub mod Aging
pub mod Retention
pub mod Visits
pub mod Spacing
pub mod Turns
pub mod Behind
pub mod Order
pub mod Invariant
mod Tests
