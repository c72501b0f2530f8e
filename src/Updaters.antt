-- ===== src/Updaters.antt =====
-- internal/updaters: the concurrency gate of the runner.
pub mod Gate
