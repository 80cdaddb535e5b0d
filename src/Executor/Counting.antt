-- ===== src/Executor/Counting.antt =====
-- The executor answers every event, and its counters say how.
use cloacina.Common.{
  ◌<◌, ◌≡◌, refl, subst, Option, none, some, Text, Result, ok, err, arith, Bool-cases, inl, inr,
}
use cloacina.Context.{Context}
use cloacina.Namespace
use cloacina.Namespace.{TaskNamespace}
use cloacina.Store.Monad.{M, Db, ValidationError, pure, gets, attempt_of, ◌>>=◌}
use cloacina.Errors.{ExecutorError}
use cloacina.Scheduler.State.{TaskReadyEvent}
use cloacina.Executor.Values.{Value}
use cloacina.Executor.Outcomes.{ExecutionResult, ExecutionStatus}
use cloacina.Executor.Retries.{should_retry_task}
use cloacina.Executor.Threads.{
  ThreadTaskExecutor, Surroundings, word, enter, leave, count_executed, count_failed,
  execute_with_timeout, saved, conclude, with_context, with_task, in_namespace, execute,
}

-- A failed run counts as failed, and one that ended well or will be tried again as executed.
abbrev pub counted : ExecutionStatus → ThreadTaskExecutor → ThreadTaskExecutor
counted ExecutionStatus.completed ex = count_executed ex
counted ExecutionStatus.failed ex = count_failed ex
counted ExecutionStatus.retry ex = count_executed ex

-- The run answers a result for the task, and the executor with that result counted.
abbrev Answers :
    ThreadTaskExecutor → TaskReadyEvent → M (ExecutionResult × ThreadTaskExecutor) → Type 0
Answers ex event m =
    (db : Db)
    → (result : ExecutionResult) × ((m db).0 ≡ ok (result, counted result.status ex))
      × (result.task_execution_id ≡ event.task_execution_id)

after :
    {A : Type 0} (ex : ThreadTaskExecutor) (event : TaskReadyEvent) (m : M A)
    (f : Result ValidationError A → M (ExecutionResult × ThreadTaskExecutor))
    → ((r : Result ValidationError A) → Answers ex event (f r))
    → Answers ex event (attempt_of m >>= f)
unfolding ◌>>=◌ attempt_of
after ex event m f h db = h (m db).0 (m db).1

module _ (s : Surroundings) (ex : ThreadTaskExecutor) (event : TaskReadyEvent) where
  saved-Answers : (r : Result ValidationError (Unit {0})) → Answers ex event (saved s ex event r)
  unfolding saved pure
  saved-Answers (ok u) db = (_, refl, refl)
  saved-Answers (err e) db = (_, refl, refl)

  conclude-Answers :
      (task : s.tasks.Code) (r : Result ExecutorError (Context Value))
      → Answers ex event (conclude s ex event task r)
  unfolding conclude pure
  conclude-Answers task (ok context) = after ex event _ _ saved-Answers
  conclude-Answers task (err error) =
      elim (Bool-cases
        (should_retry_task s.printing event.attempt error (s.tasks.retry_policy task))) [
          | inl again ↦ rw again (after ex event _ _ (λ _ db. (_, refl, refl)))
          | inr over ↦ rw over (λ db. (_, refl, refl))
        ]

module _ (s : Surroundings) (ex : ThreadTaskExecutor) (event : TaskReadyEvent) where
  with_context-Answers :
      (task : s.tasks.Code) (r : Result ValidationError (Context Value))
      → Answers (leave ex) event (with_context s ex event task r)
  unfolding with_context execute_with_timeout gets ◌>>=◌ pure
  with_context-Answers task (ok context) db = conclude-Answers s (leave ex) event task _ db
  with_context-Answers task (err e) db = (_, refl, refl)

  with_task-Answers :
      (task : Option s.tasks.Code) → Answers (leave ex) event (with_task s ex event task)
  unfolding with_task pure
  with_task-Answers none db = (_, refl, refl)
  with_task-Answers (some task) db = after (leave ex) event _ _ (with_context-Answers task) db

  in_namespace-Answers :
      (r : Result Text TaskNamespace) → Answers (leave ex) event (in_namespace s ex event r)
  unfolding in_namespace pure
  in_namespace-Answers (ok ns) db = with_task-Answers _ db
  in_namespace-Answers (err e) db = (_, refl, refl)

leave-enter : (ex : ThreadTaskExecutor) → ex.active_tasks < word → leave (enter ex) ≡ ex
leave-enter ex h = ground arith

-- Whatever the task does and whichever calls to the database fail, the executor answers each event
-- with a result for its task and no error. Its count of active tasks is again what it was, and of
-- the two other counters exactly one goes up by one: `total_failed` on a failure, `total_executed`
-- on a completion or a retry. The count of active tasks fits its word.
pub execute-answers :
    (s : Surroundings) (ex : ThreadTaskExecutor) (event : TaskReadyEvent)
    → ex.active_tasks < word
    → (db : Db)
    → (result : ExecutionResult) × ((execute s ex event db).0
        ≡ ok (result, counted result.status ex))
      × (result.task_execution_id ≡ event.task_execution_id)
unfolding execute
execute-answers s ex event h =
    subst (λ e. Answers e event (execute s ex event)) (leave-enter ex h)
      (in_namespace-Answers s (enter ex) event (Namespace.parse_namespace event.task_name))
