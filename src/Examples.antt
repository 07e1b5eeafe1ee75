-- ===== src/Examples.antt =====
-- Tests of the definitions, and the theorems at concrete inputs.
mod Paths
mod Items
mod Records
mod Sync
mod Parts
mod Watcher
mod Storage
mod Sweeps
mod Transfers
mod Hydration
mod Mounts
