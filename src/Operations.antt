-- ===== src/Operations.antt =====
-- crates/momo-core/src/orchestration/coordination.rs: the operations in progress, their guards, and
-- cancellation.
pub mod States
pub mod Tracking
mod Tests
