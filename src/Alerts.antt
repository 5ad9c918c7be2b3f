-- ===== src/Alerts.antt =====
-- hub/src/alerts: the rule table and the service that raises, deduplicates and clears alerts.
pub mod Rules
pub mod Service
pub mod Cooldown
pub mod Table
pub mod Acknowledge
pub mod Offline
