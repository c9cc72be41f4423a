-- ===== src/Store.antt =====
-- The store service (services/store): points, purchases, and rewarded grants.
pub mod Tables
pub mod Points
pub mod Ledger
pub mod Orders
pub mod Spending
pub mod Service
pub mod Webhooks
pub mod Rewarded
pub mod Limits
pub mod Kept
pub mod Soundness
pub mod Owned
pub mod Cached
pub mod Handlers
pub mod Replies
pub mod Tests
