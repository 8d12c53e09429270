-- ===== src/Router.antt =====
-- The adapters of internal/httpapi/router.go between the kernels, and what they carry across.
pub mod Ports
pub mod Crossing
pub mod Unlock
mod Tests
