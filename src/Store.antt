-- ===== src/Store.antt =====
-- The data access layer, crates/cloacina/src/dal/unified and crates/cloacina/src/models: the tables
-- as lists of rows, and each operation as a state transformer that may fail to reach the database.
-- Diesel's filters and updates are read as the SQL that they stand for. The PostgreSQL and SQLite
-- variants of an operation issue the same statement, so one definition models both, but for
-- claiming and the upsert of metadata, where they differ.
pub mod Rows
pub mod CronRows
pub mod CronSchedules
pub mod CronExecutions
pub mod Monad
pub mod Tasks
pub mod Queries
pub mod Metadata
pub mod Upserts
pub mod Claims
pub mod Claiming
pub mod Statistics
pub mod Pipelines
pub mod Keeps
pub mod Runs
pub mod Frame
pub mod PipelineFrame
