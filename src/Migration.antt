-- ===== src/Migration.antt =====
-- Topology changes: crates/hashring-core/src/migration.rs.
pub mod Types
pub mod Delta
pub mod Plan
pub mod Steps
pub mod Serving
pub mod Found
pub mod Moves
pub mod Planned
pub mod Wire
pub mod RoundTrip
pub mod Tests
