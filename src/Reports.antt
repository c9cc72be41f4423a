-- ===== src/Reports.antt =====
-- The reports service (services/reports): cheat reports and the cooldowns that they bring.
pub mod Cheats
pub mod Threshold
pub mod Tests
