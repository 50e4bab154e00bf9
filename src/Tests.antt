-- ===== src/Tests.antt =====
-- Concrete runs: inputs at which the hypotheses of the theorems hold.
mod Queries
mod Values
mod Transactions
mod Tables
mod Plans
mod Connections
mod Codes
mod Functions
mod Modules
mod Passing
mod Statements
mod Registrations
mod Decimals
mod Links
mod Extensions
mod Planning
