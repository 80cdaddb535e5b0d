-- ===== src/Executor/Writes.antt =====
-- What a run of the executor may change, given what its writes to the store may change.
use cloacina.Common.{
  ℕ, ◌≡◌, true, List, [], ◌∷◌, Option, none, some, Text, Result, ok, err, Bool, Bool-cases, inl,
  inr, ◌+◌, ◌++◌,
}
use cloacina.Common.Dict.{HashMap}
use cloacina.Context.{Context}
use cloacina.Namespace.{TaskNamespace}
use cloacina.Store.Rows.{PipelineExecution, TaskExecutionMetadata}
use cloacina.Store.Monad.{Db, BackendType, ValidationError, connect, new_v4, modify, write_if}
use cloacina.Store.Keeps.{
  Order, Keeps, Keeps-pure, Keeps-gets, Keeps-bind, Keeps-then, Keeps-attempt, Keeps-connect,
  keeps_rules,
}
use cloacina.Store.Tasks
use cloacina.Store.Queries
use cloacina.Store.Pipelines
use cloacina.Store.Metadata.{
  upsert_found, upsert_in, set_context_where, insert_or_update, upsert_task_execution_metadata,
  get_dependency_metadata_with_contexts,
}
use cloacina.Errors.{ExecutorError}
use cloacina.Scheduler.Schedule.{insert_context, create_value, create_context}
use cloacina.Scheduler.State.{TaskReadyEvent}
use cloacina.Scheduler.Contexts.{read_context}
use cloacina.Executor.Values.{Value}
use cloacina.Executor.Contexts.{Parser, json_of, load_initial, load_pipeline, build_task_context}
use cloacina.Executor.Retries.{should_retry_task}
use cloacina.Executor.Threads.{
  ThreadTaskExecutor, Surroundings, execute_with_timeout, save_task_context, mark_task_completed,
  complete_task_transaction, schedule_task_retry, saved, conclude, with_context, with_task,
  in_namespace, execute, enter,
}

module _ {R : Db → Db → Type 0} (o : Order R) where
  Keeps-new_v4 : Keeps R new_v4
  unfolding new_v4 connect
  Keeps-new_v4 = record { at = o.after_connect }

  read_context-Keeps : (parser : Parser) (i : ℕ) → Keeps R (read_context (json_of parser) i)
  unfolding read_context
  read_context-Keeps parser i = search keeps_rules

  load_initial-Keeps : (parser : Parser) (i : Option ℕ) → Keeps R (load_initial parser i)
  unfolding load_initial
  load_initial-Keeps parser none = search keeps_rules
  load_initial-Keeps parser (some i) = search (keeps_rules, read_context-Keeps)

  load_pipeline-Keeps :
      (parser : Parser) (r : Result ValidationError PipelineExecution)
      → Keeps R (load_pipeline parser r)
  unfolding load_pipeline
  load_pipeline-Keeps parser (ok p) = load_initial-Keeps parser p.context_id
  load_pipeline-Keeps parser (err e) = search keeps_rules

  pub build_task_context-Keeps :
      (parser : Parser) (event : TaskReadyEvent) (deps : List TaskNamespace)
      → Keeps R (build_task_context parser event deps)
  unfolding build_task_context Pipelines.get_by_id get_dependency_metadata_with_contexts
  build_task_context-Keeps parser event [] = search (keeps_rules, load_pipeline-Keeps)
  build_task_context-Keeps parser event (dep ∷ deps) = search keeps_rules

  -- The writes of the executor, each for one task.
  pub record Writes (s : Surroundings) (event : TaskReadyEvent) : Type 0 where
    pub context :
        (f : HashMap ℕ Text → HashMap ℕ Text) (db : Db)
        → R db (record db { contexts = f db.contexts })
    pub output :
        (f : List TaskExecutionMetadata → List TaskExecutionMetadata) (db : Db)
        → R db (record db { metadata = f db.metadata })
    pub completes : Keeps R (Tasks.mark_completed event.task_execution_id)
    pub retries :
        (task : s.tasks.Code) (error : ExecutorError)
        → should_retry_task s.printing event.attempt error (s.tasks.retry_policy task) ≡ true
        → (at : ℕ) → Keeps R (Tasks.schedule_retry event.task_execution_id at (event.attempt + 1))

  module _ (s : Surroundings) (event : TaskReadyEvent) (w : Writes s event) where
    insert_context-Keeps : (value : Text) → Keeps R (insert_context value)
    unfolding insert_context modify
    insert_context-Keeps value = Keeps-then o (Keeps-connect o) (
        Keeps-bind o Keeps-new_v4 λ id.
          Keeps-then o (record { at = λ db. w.context (λ c. c ++ (id, value) ∷ []) db })
            (Keeps-pure o (some id)))

    create_value-Keeps : (value : Option Text) → Keeps R (create_value s.serde value)
    unfolding create_value
    create_value-Keeps none = search keeps_rules
    create_value-Keeps (some value) = search (keeps_rules, insert_context-Keeps)

    create_context-Keeps : (context : Context Value) → Keeps R (create_context s.serde context)
    unfolding create_context
    create_context-Keeps context = search (keeps_rules, create_value-Keeps)

    output-Keeps :
        (allowed : Db → Bool) (f : List TaskExecutionMetadata → List TaskExecutionMetadata)
        → Keeps R (write_if allowed (λ db. record db { metadata = f db.metadata }))
    unfolding write_if
    output-Keeps allowed f = record {
      at = λ db. elim (Bool-cases (allowed db)) [
        | inl granted ↦ rw granted (w.output f db)
        | inr denied ↦ rw denied (o.same db)
      ];
    }

    upsert_found-Keeps :
        (old : Option TaskExecutionMetadata) (m : TaskExecutionMetadata)
        → Keeps R (upsert_found old m)
    unfolding upsert_found
    upsert_found-Keeps none m =
        Keeps-bind o Keeps-new_v4
          (λ _. Keeps-then o (Keeps-connect o) (output-Keeps _ (λ ms. ms ++ m ∷ [])))
    upsert_found-Keeps (some old) m =
        Keeps-then o (Keeps-connect o)
          (output-Keeps _ (set_context_where m.task_execution_id m.context_id))

    upsert_in-Keeps : (b : BackendType) (m : TaskExecutionMetadata) → Keeps R (upsert_in b m)
    unfolding upsert_in
    upsert_in-Keeps BackendType.postgres m =
        Keeps-bind o Keeps-new_v4
          (λ _. Keeps-then o (Keeps-connect o) (output-Keeps _ (insert_or_update m)))
    upsert_in-Keeps BackendType.sqlite m = search (keeps_rules, upsert_found-Keeps)

    upsert-Keeps : (m : TaskExecutionMetadata) → Keeps R (upsert_task_execution_metadata m)
    unfolding upsert_task_execution_metadata
    upsert-Keeps m = search (keeps_rules, upsert_in-Keeps) depth 8

    complete-Keeps : (context : Context Value) → Keeps R (complete_task_transaction s event context)
    unfolding complete_task_transaction save_task_context mark_task_completed Queries.get_by_id
    complete-Keeps context =
        Keeps-then o
          (Keeps-bind o (create_context-Keeps context)
            (λ _. Keeps-bind o (upsert-Keeps _) (λ _. Keeps-pure o tt)))
          (Keeps-bind o (search keeps_rules) (λ _. w.completes))

    saved-Keeps :
        (ex : ThreadTaskExecutor) (r : Result ValidationError (Unit {0}))
        → Keeps R (saved s ex event r)
    unfolding saved
    saved-Keeps ex (ok u) = search keeps_rules
    saved-Keeps ex (err e) = search keeps_rules

    conclude-Keeps :
        (ex : ThreadTaskExecutor) (task : s.tasks.Code) (r : Result ExecutorError (Context Value))
        → Keeps R (conclude s ex event task r)
    unfolding conclude schedule_task_retry
    conclude-Keeps ex task (ok context) = search (keeps_rules, complete-Keeps, saved-Keeps)
    conclude-Keeps ex task (err error) =
        elim (Bool-cases
          (should_retry_task s.printing event.attempt error (s.tasks.retry_policy task))) [
            | inl again ↦ rw again (
                Keeps-bind o
                  (Keeps-attempt o (
                    Keeps-bind o (Keeps-gets o _)
                      (λ _. Keeps-bind o (Keeps-gets o _) (λ _. w.retries task error again _))))
                  (λ _. Keeps-pure o _))
            | inr over ↦ rw over (Keeps-pure o _)
          ]

    with_context-Keeps :
        (ex : ThreadTaskExecutor) (task : s.tasks.Code) (r : Result ValidationError (Context Value))
        → Keeps R (with_context s ex event task r)
    unfolding with_context execute_with_timeout
    with_context-Keeps ex task (ok context) = Keeps-bind o (Keeps-gets o _) (conclude-Keeps _ task)
    with_context-Keeps ex task (err e) = Keeps-pure o _

    with_task-Keeps :
        (ex : ThreadTaskExecutor) (task : Option s.tasks.Code) → Keeps R (with_task s ex event task)
    unfolding with_task
    with_task-Keeps ex none = Keeps-pure o _
    with_task-Keeps ex (some task) =
        Keeps-bind o (Keeps-attempt o (build_task_context-Keeps s.parser event _))
          (with_context-Keeps ex task)

    -- A run of the executor does what its writes do.
    pub execute-Keeps : (ex : ThreadTaskExecutor) → Keeps R (execute s ex event)
    unfolding execute in_namespace
    execute-Keeps ex = in_ns _
      where
        in_ns : (r : Result Text TaskNamespace) → Keeps R (in_namespace s (enter ex) event r)
        in_ns (ok ns) = with_task-Keeps _ (s.tasks.get_task ns)
        in_ns (err e) = Keeps-pure o _
