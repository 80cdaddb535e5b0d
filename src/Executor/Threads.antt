-- ===== src/Executor/Threads.antt =====
-- crates/cloacina/src/executor/thread_task_executor.rs: `ThreadTaskExecutor`. The counters are atomic
-- words of 64 bits. A run of `execute` is modelled alone: what other runs add to the counters and
-- write to other rows meanwhile is not.
use cloacina.Common.{
  ℕ, ◌+◌, ◌-◌, ◌%◌, Bool, List, ◌++◌, Option, none, some, Text, codes, Result, ok, err, map_err,
  ltb, if◌then◌else◌,
}
use cloacina.Common.Floats.{Float}
use cloacina.Context.{Context}
use cloacina.Namespace
use cloacina.Namespace.{TaskNamespace}
use cloacina.Store.Monad.{M, ValidationError, ◌>>=◌, ◌>>◌, pure, gets, now, attempt_of}
use cloacina.Store.Tasks
use cloacina.Store.Queries
use cloacina.Store.Metadata.{upsert_task_execution_metadata}
use cloacina.Errors.{Printing, TaskError, ExecutorError, executor_error_text}
use cloacina.Retry.{RetryPolicy, calculate_delay}
use cloacina.Scheduler.Schedule.{Serde, create_context}
use cloacina.Scheduler.State.{TaskReadyEvent}
use cloacina.Executor.Values.{Value}
use cloacina.Executor.Contexts.{Parser, build_task_context}
use cloacina.Executor.Outcomes.{
  ExecutionResult, ExecutorMetrics, ExecutorConfig, success, failure, retry_later,
}
use cloacina.Executor.Retries.{should_retry_task}

pub record ThreadTaskExecutor : Type 0 where
  pub config : ExecutorConfig
  pub active_tasks : ℕ
  pub total_executed : ℕ
  pub total_failed : ℕ

abbrev pub word : ℕ
word = 18446744073709551616

abbrev pub fetch_add : ℕ → ℕ
fetch_add n = (n + 1) % word

abbrev pub fetch_sub : ℕ → ℕ
fetch_sub n = (n + word - 1) % word

unfoldable pub new : ExecutorConfig → ThreadTaskExecutor
new config = record { config = config; active_tasks = 0; total_executed = 0; total_failed = 0 }

unfoldable pub has_capacity : ThreadTaskExecutor → Bool
has_capacity ex = ltb ex.active_tasks ex.config.max_concurrent_tasks

unfoldable pub metrics : ThreadTaskExecutor → ExecutorMetrics
metrics ex = record {
  active_tasks = ex.active_tasks;
  max_concurrent = ex.config.max_concurrent_tasks;
  total_executed = ex.total_executed;
  total_failed = ex.total_failed;
  avg_duration_ms = 0;
}

abbrev pub enter : ThreadTaskExecutor → ThreadTaskExecutor
enter ex = record ex { active_tasks = fetch_add ex.active_tasks }

abbrev pub leave : ThreadTaskExecutor → ThreadTaskExecutor
leave ex = record ex { active_tasks = fetch_sub ex.active_tasks }

abbrev pub count_executed : ThreadTaskExecutor → ThreadTaskExecutor
count_executed ex = record ex { total_executed = fetch_add ex.total_executed }

abbrev pub count_failed : ThreadTaskExecutor → ThreadTaskExecutor
count_failed ex = record ex { total_failed = fetch_add ex.total_failed }

-- What the executor calls: `run task timeout moment context` is the task's code under the time limit,
-- with no answer when the limit passed first; `draw` is the random factor of a delay. Both may
-- answer otherwise at another moment.
pub record TaskCode (F64 : Type 0) : Type 1 where
  pub Code : Type 0
  pub get_task : TaskNamespace → Option Code
  pub dependencies : Code → List TaskNamespace
  pub retry_policy : Code → RetryPolicy F64
  pub run : Code → ℕ → ℕ → Context Value → Option (Result TaskError (Context Value))
  pub draw : ℕ → F64

-- The surroundings of an executor: floats, texts, serde_json, the tasks, and what `Display` prints
-- of an error of the store.
pub record Surroundings : Type 1 where
  pub float : Float
  pub printing : Printing
  pub parser : Parser
  pub serde : Serde Value
  pub tasks : TaskCode float.F64
  pub describe : ValidationError → Text

module _ (s : Surroundings) where
  open s use {float, printing, parser, serde, tasks, describe}
  open tasks use {Code, get_task}

  -- `From<ContextError>` and `From<ValidationError>`
  abbrev pub executor_error : ValidationError → ExecutorError
  executor_error ValidationError.context_error =
      ExecutorError.context (describe ValidationError.context_error)
  executor_error e = ExecutorError.validation (describe e)

  abbrev timed : Option (Result TaskError (Context Value)) → Result ExecutorError (Context Value)
  timed none = err ExecutorError.task_timeout
  timed (some (ok context)) = ok context
  timed (some (err e)) = err (ExecutorError.task_execution e)

  -- The task's code answers, fails or takes too long. A panic of it, which unwinds through
  -- `execute` and leaves the count of active tasks raised, is outside the model.
  unfoldable pub execute_with_timeout :
      ExecutorConfig → Code → Context Value → M (Result ExecutorError (Context Value))
  execute_with_timeout config task context =
      gets (λ db. timed (tasks.run task config.task_timeout db.calls context))

  unfoldable pub save_task_context : TaskReadyEvent → Context Value → M (Unit {0})
  save_task_context claimed_task context = do
    context_id ← create_context serde context
    row ← upsert_task_execution_metadata (record {
      task_execution_id = claimed_task.task_execution_id;
      pipeline_execution_id = claimed_task.pipeline_execution_id;
      task_name = claimed_task.task_name;
      context_id = context_id;
    })
    pure tt

  -- The row is read for the log.
  unfoldable pub mark_task_completed : ℕ → M (Unit {0})
  mark_task_completed task_execution_id = do
    task ← Queries.get_by_id task_execution_id
    Tasks.mark_completed task_execution_id

  unfoldable pub complete_task_transaction : TaskReadyEvent → Context Value → M (Unit {0})
  complete_task_transaction claimed_task context = do
    save_task_context claimed_task context
    mark_task_completed claimed_task.task_execution_id

  unfoldable pub mark_task_failed : ℕ → ExecutorError → M (Unit {0})
  mark_task_failed task_execution_id error = do
    task ← Queries.get_by_id task_execution_id
    Tasks.mark_failed task_execution_id (executor_error_text printing error)

  unfoldable pub schedule_task_retry : TaskReadyEvent → RetryPolicy float.F64 → M (Unit {0})
  schedule_task_retry claimed_task policy = do
    factor ← gets (λ db. tasks.draw db.calls)
    at ← now
    Tasks.schedule_retry claimed_task.task_execution_id
        (at + calculate_delay float policy claimed_task.attempt factor) (claimed_task.attempt + 1)

  abbrev pub answer :
      ThreadTaskExecutor → ExecutionResult → M (ExecutionResult × ThreadTaskExecutor)
  answer ex result = pure (result, ex)

  -- A failure before the task ran.
  abbrev pub give_up :
      ThreadTaskExecutor → TaskReadyEvent → Text → M (ExecutionResult × ThreadTaskExecutor)
  give_up ex event message =
      answer (count_failed (leave ex)) (failure event.task_execution_id message)

  unfoldable pub saved :
      ThreadTaskExecutor
      → TaskReadyEvent
      → Result ValidationError (Unit {0})
      → M (ExecutionResult × ThreadTaskExecutor)
  saved ex event (ok _) = answer (count_executed ex) (success event.task_execution_id)
  saved ex event (err e) = answer (count_failed ex) (
      failure event.task_execution_id
        (codes "Failed to save context: " ++ executor_error_text printing (executor_error e)))

  abbrev retried :
      ThreadTaskExecutor
      → TaskReadyEvent
      → ExecutorError
      → RetryPolicy float.F64
      → M (ExecutionResult × ThreadTaskExecutor)
  retried ex event error policy = do
    r ← attempt_of (schedule_task_retry event policy)
    answer (count_executed ex)
        (retry_later event.task_execution_id (executor_error_text printing error))

  -- The part of `execute` after the task ran.
  unfoldable pub conclude :
      ThreadTaskExecutor
      → TaskReadyEvent
      → Code
      → Result ExecutorError (Context Value)
      → M (ExecutionResult × ThreadTaskExecutor)
  conclude ex event task (ok context) = do
    r ← attempt_of (complete_task_transaction event context)
    saved ex event r
  conclude ex event task (err error) =
      if should_retry_task printing event.attempt error (tasks.retry_policy task)
      then retried ex event error (tasks.retry_policy task)
      else answer (count_failed ex)
          (failure event.task_execution_id (executor_error_text printing error))

  unfoldable pub with_context :
      ThreadTaskExecutor
      → TaskReadyEvent
      → Code
      → Result ValidationError (Context Value)
      → M (ExecutionResult × ThreadTaskExecutor)
  with_context ex event task (err e) =
      give_up ex event
        (codes "Context build failed: " ++ executor_error_text printing (executor_error e))
  with_context ex event task (ok context) = do
    result ← execute_with_timeout ex.config task context
    conclude (leave ex) event task result

  unfoldable pub with_task :
      ThreadTaskExecutor → TaskReadyEvent → Option Code → M (ExecutionResult × ThreadTaskExecutor)
  with_task ex event none = give_up ex event (codes "Task not found: " ++ event.task_name)
  with_task ex event (some task) = do
    context ← attempt_of (build_task_context parser event (tasks.dependencies task))
    with_context ex event task context

  unfoldable pub in_namespace :
      ThreadTaskExecutor
      → TaskReadyEvent
      → Result Text TaskNamespace
      → M (ExecutionResult × ThreadTaskExecutor)
  in_namespace ex event (err e) = give_up ex event (codes "Invalid namespace: " ++ e)
  in_namespace ex event (ok namespace) = with_task ex event (get_task namespace)

  unfoldable pub execute :
      ThreadTaskExecutor → TaskReadyEvent → M (ExecutionResult × ThreadTaskExecutor)
  execute ex event = in_namespace (enter ex) event (Namespace.parse_namespace event.task_name)

  -- A call of the store within a method whose errors are the executor's.
  abbrev of_store : M (Unit {0}) → M (Result ExecutorError (Unit {0}))
  of_store m = do r ← attempt_of m; pure (map_err executor_error r)

  abbrev retry_or_fail : TaskReadyEvent → ExecutorError → RetryPolicy float.F64 → M (Unit {0})
  retry_or_fail claimed_task error policy =
      if should_retry_task printing claimed_task.attempt error policy
      then schedule_task_retry claimed_task policy
      else mark_task_failed claimed_task.task_execution_id error

  abbrev fail_of :
      TaskReadyEvent → ExecutorError → Option Code → M (Result ExecutorError (Unit {0}))
  fail_of claimed_task error none = pure (err (ExecutorError.task_not_found claimed_task.task_name))
  fail_of claimed_task error (some task) =
      of_store (retry_or_fail claimed_task error (tasks.retry_policy task))

  abbrev fail_in :
      TaskReadyEvent
      → ExecutorError
      → Result Text TaskNamespace
      → M (Result ExecutorError (Unit {0}))
  fail_in claimed_task error (err e) =
      pure (err (ExecutorError.task_not_found (codes "Invalid namespace: " ++ e)))
  fail_in claimed_task error (ok namespace) = fail_of claimed_task error (get_task namespace)

  -- No caller of this method is left: the dispatcher's `handle_result` took its place.
  unfoldable pub handle_task_result :
      TaskReadyEvent → Result ExecutorError (Context Value) → M (Result ExecutorError (Unit {0}))
  handle_task_result claimed_task (ok result_context) =
      of_store (complete_task_transaction claimed_task result_context)
  handle_task_result claimed_task (err error) =
      fail_in claimed_task error (Namespace.parse_namespace claimed_task.task_name)
