-- ===== src/RuntimeSettings.antt =====
-- crates/momo-core/src/runtime/settings.rs: the persisted runtime settings, with sparse overrides
-- for each Space.
pub mod Json
pub mod Merge
pub mod Distinct
pub mod Prune
pub mod Sources
pub mod Store
pub mod Update
pub mod Validity
pub mod Normalized
pub mod Editing
pub mod Soundness
pub mod Effect
pub mod Reload
mod Tests
