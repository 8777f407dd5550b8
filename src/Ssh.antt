-- ===== src/Ssh.antt =====
-- internal/ssh: the connections that are kept for reuse.
pub mod Pool
