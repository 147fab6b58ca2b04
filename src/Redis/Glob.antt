-- ===== src/Redis/Glob.antt =====
-- Glob patterns: crates/hashring-redis/src/commands/glob.rs.
pub mod Class
pub mod Compile
pub mod Compiled
pub mod Match
pub mod Matched
pub mod Cost
mod Tests
