-- ===== src/PromptSpaces.antt =====
-- crates/momo-core/src/prompt_spaces.rs: the product's prompts and the overrides of a host.
pub mod Registry
pub mod Names
pub mod Overrides
mod Tests
