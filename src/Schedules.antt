-- ===== src/Schedules.antt =====
-- internal/schedules: cron expressions, the store of the schedules, and what a due schedule does.
pub mod Calendar
pub mod Cron
pub mod Entry
pub mod Store
pub mod Fanout
pub mod Fire
pub mod Ticker
