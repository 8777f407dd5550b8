-- ===== src/Agent.antt =====
-- internal/agent: the buffer on disk and the connection to the server.
pub mod DiskBuffer
pub mod Connection
