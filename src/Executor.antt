-- ===== src/Executor.antt =====
-- The executor of tasks and the dispatcher that calls it: crates/cloacina/src/executor and
-- crates/cloacina/src/dispatcher.
pub mod Values
pub mod Merging
pub mod Contexts
pub mod Outcomes
pub mod Retries
pub mod Threads
pub mod Writes
pub mod Counting
pub mod Idempotence
