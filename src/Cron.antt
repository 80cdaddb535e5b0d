-- ===== src/Cron.antt =====
-- Time-based schedules: crates/cloacina/src/cron_evaluator.rs, cron_scheduler.rs and cron_recovery.rs.
pub mod Evaluator
pub mod Occurrences
pub mod Scheduler
pub mod Claims
pub mod Recovery
pub mod Audits
pub mod Fates
pub mod Passes
pub mod Auditing
pub mod GivingUp
pub mod RunningOut
