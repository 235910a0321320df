-- ===== src/Timeline.antt =====
-- timeline/: what a room's timeline shows of the cache, and what is sent to the room.
pub mod Store
pub mod Rows
pub mod Ranges
pub mod Older
pub mod Synced
pub mod Sync
pub mod Queue
pub mod Sending
pub mod Keys
pub mod Throttled
pub mod Edits
pub mod OwnEdits
pub mod Reactions
pub mod Grouped
pub mod Types
pub mod BackAgain
mod Tests
mod EditTests
