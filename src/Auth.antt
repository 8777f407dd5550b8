-- ===== src/Auth.antt =====
-- internal/api/auth: account lockout, refresh tokens and the login.
pub mod Lockout
pub mod Tokens
pub mod Login
