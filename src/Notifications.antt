-- ===== src/Notifications.antt =====
-- hub/src/notifications: who is told of an alert, and what is tried again.
pub mod Service
pub mod Unique
pub mod Delivery
