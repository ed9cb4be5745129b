-- ===== src/Ddm.antt =====
-- crates/momo-memory/src/ddm.rs: the Dynamic Disposition Model, which decides from a character's
-- profile and the signals of a turn which dispositions are shown, and in which band.
pub mod Profile
pub mod Validation
pub mod Evaluation
pub mod Soundness
pub mod Bands
pub mod Selection
pub mod Ranking
pub mod Tests
