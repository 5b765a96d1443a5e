-- ===== src/Zoned.antt =====
-- src/runtime/zoned_store.rs: an append-only store of zones on a file. Bytes has the buffers, Device
-- the file and its zones, Group what is kept of each group of zones.
pub mod Bytes
pub mod Device
pub mod Rate
pub mod Group
pub mod Monad
pub mod Appending
pub mod Manager
pub mod Rules
pub mod Quiet
pub mod Places
pub mod Recovering
pub mod Starting
pub mod Past
pub mod MetaLog
pub mod Errors
pub mod Reclaim
pub mod Filling
pub mod Ensured
pub mod Run
