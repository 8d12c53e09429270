-- ===== src/Run/Tests.antt =====
-- Runs of the run kernel on concrete input, and the theorems at concrete inputs.
pub mod Fixtures
pub mod Scenarios
mod Advances
mod Requests
mod Kernels
