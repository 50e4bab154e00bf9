-- ===== src/Function.antt =====
-- src/function: the functions that an extension gives to SQL.
pub mod Options
pub mod Results
pub mod Aggregate
pub mod Registration
pub mod Calls
