-- ===== src/Decision/Tests.antt =====
-- Runs of the decision kernel on concrete input, and the theorems at concrete inputs.
pub mod Fixtures
mod Pendings
mod Cases
mod Gates
mod Contracts
