-- ===== src/Tests.antt =====
-- The theorems at concrete inputs, and runs of the code.
pub mod Keys
pub mod Disk
pub mod Statements
pub mod Sql
pub mod Planned
pub mod StoredRows
