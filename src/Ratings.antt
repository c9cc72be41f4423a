-- ===== src/Ratings.antt =====
-- The ratings service (services/ratings): Elo ratings, level bands, match results.
pub mod Float
pub mod Elo
pub mod Level
pub mod Repository
pub mod Effect
pub mod History
pub mod Service
pub mod Credits
pub mod Matches
pub mod Pages
pub mod Handlers
pub mod Replies
pub mod Tests
