-- ===== src/Node.antt =====
-- The records of a data node: crates/hashring-node/src.
pub mod Versions
pub mod VersionOrder
pub mod Newest
pub mod Retries
pub mod Index
pub mod Buckets
pub mod Contents
pub mod Ranges
pub mod Invariant
pub mod Store
pub mod Staging
pub mod Keyspace
pub mod Receipts
pub mod Dedup
mod Tests
