-- ===== src/Matchmaking.antt =====
-- The matchmaking service (services/matchmaking): validation, the queue, and the pairing tick.
pub mod Player
pub mod Nearest
pub mod Choice
pub mod Queue
pub mod Service
pub mod Joining
pub mod Pairing
pub mod Settled
pub mod Progress
pub mod Couples
pub mod Serve
pub mod Waiting
pub mod Unqueued
pub mod Tests
