-- ===== src/Capability.antt =====
-- crates/momo-core/src/capability.rs: what an endpoint declares it can do, and the registry that
-- caches the declarations of the providers.
pub mod Profile
pub mod Registry
pub mod Freshness
mod Tests
