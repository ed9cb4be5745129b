-- ===== src/Memory.antt =====
-- crates/momo-memory: the documents of the memory, the paths they stand at, and what a patch does.
pub mod Times
pub mod Components
pub mod Metadata
pub mod Paths
pub mod Archive
pub mod Section
pub mod Operations
pub mod Document
pub mod Tests
pub mod Access
pub mod Terms
pub mod Escapes
pub mod Index
pub mod Same
pub mod Patches
pub mod Prepare
