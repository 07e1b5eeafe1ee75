-- ===== src/Sync.antt =====
-- The synchronisation engine of crates/lnxdrive-sync.
pub mod Ports
pub mod Retry
pub mod Bulk
pub mod Remote
pub mod Scan
pub mod Local
pub mod Cycle
pub mod Watcher
pub mod Scheduler
