-- ===== src/Cache.antt =====
-- Cache.cpp: the part of the cache that keeps a room's timeline.
pub mod Lmdb
pub mod Room
pub mod Saving
pub mod Old
pub mod Reading
pub mod ListTables
pub mod Tests
pub mod Coherence
pub mod Loaded
pub mod NewMessages
pub mod Added
pub mod Echoed
pub mod Saved
pub mod Forgotten
