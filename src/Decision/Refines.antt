-- ===== src/Decision/Refines.antt =====
-- The locked regions of the decision kernel refine the abstract view of pending decisions.
pub mod Requests
pub mod Outcomes
pub mod Repairs
pub mod Regions
pub mod Fate
