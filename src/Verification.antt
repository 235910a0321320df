-- ===== src/Verification.antt =====
-- encryption/DeviceVerificationFlow.{h,cpp} and encryption/VerificationManager.{h,cpp}: interactive
-- verification of another device by short authentication strings.
pub mod Message
pub mod Env
pub mod Flow
pub mod Mac
pub mod Outgoing
pub mod Incoming
pub mod Machine
pub mod Manager
pub mod Registered
pub mod Once
pub mod Same
pub mod Confirmed
pub mod Glare
pub mod InRange
pub mod Exchange
pub mod Strings
pub mod Endings
pub mod KnownKeys
pub mod RightMacs
mod Tests
mod RegistryTests
