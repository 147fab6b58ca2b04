-- ===== src/Topology.antt =====
-- crates/hashring-core/src/topology.rs
pub mod Types
pub mod Validate
pub mod Build
pub mod Lookup
pub mod Clockwise
pub mod Collected
pub mod Replicas
pub mod Owner
pub mod Boundaries
pub mod Ranges
pub mod Partition
pub mod Members
pub mod Canonical
pub mod Arguments
pub mod Vnodes
pub mod Construction
pub mod Validity
pub mod Served
pub mod Removal
pub mod Spread
pub mod Wire
pub mod Accepted
pub mod Tests
