-- ===== src/Gcache.antt =====
-- utils/tools/gcache: the cache in memory.
pub mod Lru
pub mod Data
pub mod Adapter
pub mod Checked
pub mod Expire
pub mod Covers
pub mod Bounded
pub mod Handled
pub mod SetMap
pub mod Synced
pub mod Missing
pub mod Steps
pub mod Gets
pub mod GetOrSet
pub mod Sync
pub mod Sweep
pub mod Due
mod Tests
