-- ===== src/Web.antt =====
-- internal/web: the sessions of the web interface.
pub mod Session
