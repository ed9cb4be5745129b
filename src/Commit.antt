-- ===== src/Commit.antt =====
-- crates/momo-memory/src/commit.rs and the transaction of crates/momo-memory/src/lib.rs: prepared
-- after-images, and their all-or-nothing application with rollback.
pub mod Transaction
pub mod Atomicity
pub mod Success
pub mod Images
mod Tests
