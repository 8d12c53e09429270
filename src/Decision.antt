-- ===== src/Decision.antt =====
-- The decision kernel, internal/decision: its pending decisions, approvals, receipts, outbox and gates.
pub mod Statuses
pub mod Types
pub mod Events
pub mod Pending
pub mod Repair
pub mod Approvals
pub mod Cleanup
pub mod Receipts
pub mod Gate
pub mod Spec
pub mod Refines
pub mod History
pub mod Reference
pub mod Contracts
pub mod Setup
pub mod Tests
