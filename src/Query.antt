-- ===== src/Query.antt =====
-- src/query/mod.rs: a prepared statement and its execution. SQLite's own statement is not part of
-- the repository, so what it does is a parameter, an `Api`.
pub mod Statement
pub mod Lifecycle
pub mod Rows
pub mod Binding
pub mod Params
pub mod Prepare
