-- ===== src/Vtab.antt =====
-- src/vtab: what a virtual table answers to SQLite.
pub mod Stubs
pub mod Functions
pub mod Cursors
pub mod Connecting
pub mod Modules
pub mod Changes
