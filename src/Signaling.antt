-- ===== src/Signaling.antt =====
-- The signaling service (services/signaling): rooms, arbitration of a match, and who may enter.
pub mod Hub
pub mod Match
pub mod Departure
pub mod Outcomes
pub mod Verdicts
pub mod Serve
pub mod Registry
pub mod Invites
pub mod Presence
pub mod Joined
pub mod Served
pub mod Gone
pub mod Service
pub mod Admission
pub mod Tests
