-- ===== src/Notifications.antt =====
-- src/notifications: what a worker is told from outside.
pub mod Reaction
pub mod Signal
