-- ===== src/Run.antt =====
-- The run kernel, internal/run: its data, its operations and what is proved of them.
pub mod States
pub mod Types
pub mod Roots
pub mod Outbox
pub mod Steps
pub mod Obligations
pub mod Setup
pub mod Caches
pub mod Create
pub mod Park
pub mod Advance
pub mod Resume
pub mod Sweep
pub mod Frames
pub mod Spec
pub mod Refines
pub mod Tests
