-- ===== src/Errors.antt =====
-- crates/cloacina-workflow/src/error.rs and the executor's errors of crates/cloacina/src/error.rs,
-- with what `Display` prints. A nested error that the program only prints is held as its text.
use cloacina.Common.{ℕ, Text, codes, ◌++◌}

-- What the program uses of the standard library's text: `to_lowercase` and the decimal digits.
pub record Printing : Type 0 where
  pub to_lowercase : Text → Text
  pub decimal : ℕ → Text

pub data TaskError : Type 0 where
  execution_failed : (message task_id : Text) (timestamp : ℕ) → TaskError
  dependency_not_satisfied : (dependency task_id : Text) → TaskError
  timeout : (task_id : Text) (timeout_seconds : ℕ) → TaskError
  context_error : (task_id error : Text) → TaskError
  validation_failed : (message : Text) → TaskError
  unknown : (task_id message : Text) → TaskError
  readiness_check_failed : (task_id : Text) → TaskError
  trigger_rule_failed : (task_id : Text) → TaskError

pub data ExecutorError : Type 0 where
  database : Text → ExecutorError
  connection_pool : Text → ExecutorError
  task_not_found : Text → ExecutorError
  task_execution : TaskError → ExecutorError
  context : Text → ExecutorError
  task_timeout : ExecutorError
  semaphore : Text → ExecutorError
  pipeline_not_found : Text → ExecutorError
  serialization : Text → ExecutorError
  invalid_scope : Text → ExecutorError
  validation : Text → ExecutorError

module _ (printing : Printing) where
  open printing use {decimal}

  unfoldable pub task_error_text : TaskError → Text
  task_error_text (execution_failed message task_id timestamp) =
      codes "Task execution failed: " ++ message
  task_error_text (dependency_not_satisfied dependency task_id) =
      codes "Task dependency not satisfied: " ++ (dependency ++ (codes " required by " ++ task_id))
  task_error_text (timeout task_id timeout_seconds) =
      codes "Task timeout: "
      ++ (task_id ++ (codes " exceeded " ++ (decimal timeout_seconds ++ codes "s")))
  task_error_text (context_error task_id error) =
      codes "Context error in task " ++ (task_id ++ (codes ": " ++ error))
  task_error_text (validation_failed message) = codes "Task validation failed: " ++ message
  task_error_text (unknown task_id message) =
      codes "Unknown error in task " ++ (task_id ++ (codes ": " ++ message))
  task_error_text (readiness_check_failed task_id) =
      codes "Task readiness check failed: " ++ task_id
  task_error_text (trigger_rule_failed task_id) =
      codes "Trigger rule evaluation failed: " ++ task_id

  unfoldable pub executor_error_text : ExecutorError → Text
  executor_error_text (database e) = codes "Database error: " ++ e
  executor_error_text (connection_pool e) = codes "Connection pool error: " ++ e
  executor_error_text (task_not_found e) = codes "Task not found in registry: " ++ e
  executor_error_text (task_execution e) = codes "Task execution error: " ++ task_error_text e
  executor_error_text (context e) = codes "Context error: " ++ e
  executor_error_text task_timeout = codes "Task execution timeout"
  executor_error_text (semaphore e) = codes "Semaphore acquisition error: " ++ e
  executor_error_text (pipeline_not_found e) = codes "Pipeline execution not found: " ++ e
  executor_error_text (serialization e) = codes "Serialization error: " ++ e
  executor_error_text (invalid_scope e) = codes "Invalid context scope: " ++ e
  executor_error_text (validation e) = codes "Validation error: " ++ e
