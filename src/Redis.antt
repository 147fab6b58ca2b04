-- ===== src/Redis.antt =====
-- The Redis gateway: crates/hashring-redis/src.
pub mod Glob
pub mod Resp
pub mod Args
