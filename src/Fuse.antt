-- ===== src/Fuse.antt =====
-- Files on demand: crates/lnxdrive-fuse.
pub mod Maps
pub mod InodeEntry
pub mod InodeTable
pub mod Error
pub mod Hydration
pub mod FileSystem
pub mod WriteSerializer
pub mod Dehydration
pub mod ContentCache
