-- ===== src/Auth.antt =====
-- internal/auth: the login throttle.
pub mod Throttle
