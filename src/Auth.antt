-- ===== src/Auth.antt =====
-- services/auth: Google logins, sessions and consents; and the middleware that resolves a session,
-- in services/auth and in the other services.
pub mod Session
pub mod Users
pub mod Middleware
pub mod Handlers
pub mod Login
pub mod Internal
pub mod Resolved
pub mod Tests
