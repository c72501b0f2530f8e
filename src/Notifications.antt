-- ===== src/Notifications.antt =====
-- internal/notifications: what becomes of the transitions of the alerts.
pub mod Modes
pub mod Quiet
pub mod Routing
pub mod Dispatch
pub mod Flush
pub mod Expected
