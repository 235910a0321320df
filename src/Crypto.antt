-- ===== src/Crypto.antt =====
-- Keys of users and of room sessions: who is trusted, who gets a key, and what is decrypted.
pub mod Keys
pub mod DeviceList
pub mod Pinned
pub mod PinnedRuns
pub mod Admitted
pub mod Sessions
pub mod Decrypting
pub mod Replay
pub mod Replayed
pub mod KeyRequests
pub mod Forwarded
pub mod Sharing
pub mod StillMembers
pub mod Targeted
pub mod SentTo
pub mod GroupEncryption
pub mod Recipients
pub mod Readers
pub mod KeptHolders
pub mod RoomMembers
pub mod RoomTrust
pub mod OnlyVerified
pub mod VerifiedReaders
pub mod Status
pub mod Marking
pub mod Chain
pub mod FreshStatus
pub mod SendingKeys
pub mod TargetLists
pub mod KnownTargets
pub mod Tests
pub mod SessionTests
pub mod EncryptionTests
