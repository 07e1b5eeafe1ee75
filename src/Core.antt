-- ===== src/Core.antt =====
-- The domain of crates/lnxdrive-core.
pub mod Error
pub mod RemotePath
pub mod SyncPath
pub mod Ids
pub mod Time
pub mod ItemState
pub mod ErrorInfo
pub mod Metadata
pub mod SyncItem
pub mod Transition
pub mod Session
pub mod Conflict
pub mod Account
pub mod Config
