-- ===== src/Executor.antt =====
-- executor/: what the executors do with the rows of their sources.
pub mod Expressions
pub mod Relations
pub mod Inserts
pub mod InsertRows
pub mod Predicates
pub mod Filters
pub mod Joins
pub mod Transaction
pub mod Statements
pub mod Projection
pub mod Calls
pub mod Shapes
pub mod Aggregates
pub mod Groups
pub mod Execution
