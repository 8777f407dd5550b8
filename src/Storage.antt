-- ===== src/Storage.antt =====
-- internal/storage: the buffer between the log processor and the log repository.
pub mod LogBuffer
pub mod LogQuery
