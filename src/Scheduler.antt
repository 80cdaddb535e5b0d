-- ===== src/Scheduler.antt =====
-- crates/cloacina/src/task_scheduler: trigger rules, the context manager, the state manager, the
-- scheduling loop and the recovery of orphaned tasks.
pub mod Rules
pub mod Contexts
pub mod State
pub mod Loop
pub mod Recovery
pub mod Reads
pub mod Writes
pub mod Rounds
pub mod Safety
pub mod Schedule
pub mod Scheduling
pub mod Ending
pub mod Progress
pub mod Dependencies
pub mod Merging
pub mod RecoveryFrame
pub mod RecoveryBound
pub mod Abandonment
pub mod Conditions
pub mod Verdicts
pub mod Completion
pub mod Cancelling
