-- ===== src/Executor/Retries.antt =====
-- crates/cloacina/src/executor/thread_task_executor.rs: whether a failed attempt is tried again.
use cloacina.Common.{ℕ, Bool, true, false, ◌||◌, all, leb, if◌then◌else◌, codes, text_contains}
use cloacina.Errors.{
  Printing, ExecutorError, database, connection_pool, task_not_found, task_execution, task_timeout,
  executor_error_text, task_error_text,
}
use cloacina.Retry.{
  RetryPolicy, RetryCondition, all_errors, never, transient_only, error_pattern, matches_patterns,
}

module _ (printing : Printing) where
  open printing use {to_lowercase}

  unfoldable pub is_transient_error : ExecutorError → Bool
  is_transient_error task_timeout = true
  is_transient_error (database e) = true
  is_transient_error (connection_pool e) = true
  is_transient_error (task_not_found e) = false
  is_transient_error (task_execution e) =
      let error_msg = to_lowercase (task_error_text printing e) in
      text_contains error_msg (codes "timeout")
      || text_contains error_msg (codes "connection")
      || text_contains error_msg (codes "network")
      || text_contains error_msg (codes "temporary")
      || text_contains error_msg (codes "unavailable")
  is_transient_error _ = false

  unfoldable pub condition_holds : ExecutorError → RetryCondition → Bool
  condition_holds error never = false
  condition_holds error all_errors = true
  condition_holds error transient_only = is_transient_error error
  condition_holds error (error_pattern patterns) =
      matches_patterns printing (executor_error_text printing error) patterns

  -- All conditions must hold.
  unfoldable pub should_retry_task : {F64 : Type 0} → ℕ → ExecutorError → RetryPolicy F64 → Bool
  should_retry_task attempt error policy =
      if leb policy.max_attempts attempt
      then false
      else all (condition_holds error) policy.retry_conditions
