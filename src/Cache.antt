-- ===== src/Cache.antt =====
-- The state repository of crates/lnxdrive-cache.
pub mod States
pub mod Repository
