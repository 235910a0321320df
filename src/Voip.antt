-- ===== src/Voip.antt =====
-- voip/: one-to-one calls. CallManager keeps the call that the user is in or is invited to, and
-- WebRTCSession the media session, whose signals come back to CallManager.
pub mod Session
pub mod Manager
pub mod Pipeline
pub mod Calls
pub mod Events
pub mod Outcome
pub mod Placing
pub mod Accepting
pub mod Delivery
pub mod Disturbance
mod Tests
