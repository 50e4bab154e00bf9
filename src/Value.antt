-- ===== src/Value.antt =====
-- src/value: the values that pass between Rust and SQLite.
pub mod Bytes
pub mod Blob
pub mod Access
pub mod Values
pub mod Passed
pub mod Pointers
