-- ===== src/Coordinator.antt =====
-- The coordinator: crates/hashring-coordinator/src.
pub mod Helpers
pub mod Destinations
pub mod Progress
pub mod Policy
mod Tests
