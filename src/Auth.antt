-- ===== src/Auth.antt =====
-- packages/auth-core/src and the checks of roles that realtime and canvas-sync build on it.
pub mod Roles
pub mod Refresh
pub mod Otp
pub mod Tokens
