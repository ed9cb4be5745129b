-- ===== src/History.antt =====
-- crates/momo-core/src/orchestration/history.rs: the evidence of earlier turns (images and tool
-- exchanges) in the prompt, and the messages of the gateway that it becomes.
pub mod Messages
pub mod Evidence
pub mod Expand
pub mod Budget
pub mod Payload
pub mod Storable
pub mod Images
pub mod Claims
mod Tests
