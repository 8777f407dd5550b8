-- ===== src/Query.antt =====
-- internal/query: the query language of the log search.
pub mod Ast
pub mod Fields
pub mod Text
pub mod Sql
pub mod Validate
mod Tests
