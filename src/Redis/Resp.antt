-- ===== src/Redis/Resp.antt =====
-- The serialization protocol: crates/hashring-redis/src/resp.rs.
pub mod Decimal
pub mod Utf8
pub mod Request
pub mod Lines
pub mod Pipelined
pub mod Reply
pub mod RoundTrip
mod Tests
