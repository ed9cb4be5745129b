-- ===== src/Context.antt =====
-- crates/momo-core/src/context.rs: the prompt that a model is sent, within a token budget.
pub mod Tokens
pub mod Truncate
pub mod Largest
pub mod Quotas
pub mod Sections
pub mod Fits
pub mod Prepare
pub mod Budget
pub mod Shown
pub mod Recency
pub mod Spending
mod Tests
