-- ===== src/Executor/Outcomes.antt =====
-- crates/cloacina/src/dispatcher/types.rs and crates/cloacina/src/executor/types.rs: what an executor
-- answers, its metrics and its configuration. How long a task ran is only logged, so it is left out.
use cloacina.Common.{ℕ, ◌-◌, Option, none, some, Text}

pub data ExecutionStatus : Type 0 where
  completed failed retry : ExecutionStatus

pub record ExecutionResult : Type 0 where
  pub task_execution_id : ℕ
  pub status : ExecutionStatus
  pub error : Option Text

abbrev pub success : ℕ → ExecutionResult
success id = record { task_execution_id = id; status = ExecutionStatus.completed; error = none }

abbrev pub failure : ℕ → Text → ExecutionResult
failure id error = record {
  task_execution_id = id;
  status = ExecutionStatus.failed;
  error = some error;
}

abbrev pub retry_later : ℕ → Text → ExecutionResult
retry_later id error = record {
  task_execution_id = id;
  status = ExecutionStatus.retry;
  error = some error;
}

pub record ExecutorMetrics : Type 0 where
  pub active_tasks : ℕ
  pub max_concurrent : ℕ
  pub total_executed : ℕ
  pub total_failed : ℕ
  pub avg_duration_ms : ℕ

-- `saturating_sub`
unfoldable pub available_capacity : ExecutorMetrics → ℕ
available_capacity m = m.max_concurrent - m.active_tasks

pub data DispatchError : Type 0 where
  executor_not_found : Text → DispatchError
  execution_failed : Text → DispatchError
  database_error : Text → DispatchError
  context_error : Text → DispatchError
  validation_error : Text → DispatchError
  no_capacity : Text → DispatchError
  task_not_found : ℕ → DispatchError

pub record ExecutorConfig : Type 0 where
  pub max_concurrent_tasks : ℕ
  pub task_timeout : ℕ

-- Four tasks at once, and five minutes in nanoseconds.
abbrev pub default_config : ExecutorConfig
default_config = record { max_concurrent_tasks = 4; task_timeout = 300000000000 }
