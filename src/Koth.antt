-- ===== src/Koth.antt =====
-- The king-of-the-hill service (services/koth): the ranked hill, the crowns, and the resets.
pub mod Clock
pub mod Rank
pub mod Thresholds
pub mod Hill
pub mod Crown
pub mod Challenge
pub mod Reset
pub mod Throne
pub mod Credits
pub mod Rewards
pub mod Attempts
pub mod Standings
pub mod Handlers
pub mod Tests
