-- ===== src/Run/Refines.antt =====
-- Every operation of the run kernel is a transition of the abstract view.
pub mod Synthetic
pub mod Requests
pub mod Advance
pub mod Sweep
pub mod Calls
pub mod Maintenance
pub mod Create
pub mod History
