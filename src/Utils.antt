-- ===== src/Utils.antt =====
-- Utils.cpp: functions on texts that timelines and lists of rooms show.
pub mod FileSize
pub mod Emoji
pub mod Distance
pub mod EditScripts
pub mod LeastEdits
mod Tests
