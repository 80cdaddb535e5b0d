-- ===== src/Scheduler/Reads.antt =====
-- The reading handlers of the scheduler change no row, for every preorder on the database; the
-- writing ones go up in a preorder in which their single writes do.
use cloacina.Common.{ℕ, List, [], ◌∷◌, Option, none, some, Text, Result, ok, err, nat_eq}
use cloacina.Namespace.{TaskNamespace}
use cloacina.Context.{Context}
use cloacina.Store.Rows.{TaskExecution, PipelineExecution, TaskExecutionMetadata}
use cloacina.Store.Monad.{Db, ValidationError}
use cloacina.Store.Keeps.{Order, Keeps, Keeps-bind, Keeps-attempt, keeps_rules}
use cloacina.Store.Queries.{
  get_task_statuses_batch, get_task_status, get_pending_tasks_batch, check_pipeline_completion,
  get_all_tasks_for_pipeline, check_pipeline_failure, get_orphaned_tasks,
}
use cloacina.Store.Pipelines
use cloacina.Scheduler.Rules.{Json}
use cloacina.Scheduler.Contexts.{
  Registry, declared_dependencies, get_by_pipeline_and_task, read_context, merge_dependencies,
  merge_dependency_contexts, load_context_for_task, or_failed, initial_context, saved_as,
  saved_context, merge_read, merge_stored, merge_saved, load_for,
}
use cloacina.Scheduler.State.{dependencies_ended}

module _ {R : Db → Db → Type 0} (o : Order R) where
  pub get_task_statuses_batch-Keeps :
      (i : ℕ) (names : List Text) → Keeps R (get_task_statuses_batch i names)
  unfolding get_task_statuses_batch
  get_task_statuses_batch-Keeps i [] = search keeps_rules
  get_task_statuses_batch-Keeps i (n ∷ ns) = search keeps_rules

  pub get_task_status-Keeps : (i : ℕ) (name : Text) → Keeps R (get_task_status i name)
  unfolding get_task_status
  get_task_status-Keeps i name = search keeps_rules

  pub get_pending_tasks_batch-Keeps : (is : List ℕ) → Keeps R (get_pending_tasks_batch is)
  unfolding get_pending_tasks_batch
  get_pending_tasks_batch-Keeps [] = search keeps_rules
  get_pending_tasks_batch-Keeps (i ∷ is) = search keeps_rules

  pub check_pipeline_completion-Keeps : (i : ℕ) → Keeps R (check_pipeline_completion i)
  unfolding check_pipeline_completion
  check_pipeline_completion-Keeps i = search keeps_rules

  pub get_all_tasks-Keeps : (i : ℕ) → Keeps R (get_all_tasks_for_pipeline i)
  unfolding get_all_tasks_for_pipeline
  get_all_tasks-Keeps i = search keeps_rules

  pub check_pipeline_failure-Keeps : (i : ℕ) → Keeps R (check_pipeline_failure i)
  unfolding check_pipeline_failure
  check_pipeline_failure-Keeps i = search keeps_rules

  pub get_orphaned_tasks-Keeps : Keeps R get_orphaned_tasks
  unfolding get_orphaned_tasks
  get_orphaned_tasks-Keeps = search keeps_rules

  pub get_by_id-Keeps : (i : ℕ) → Keeps R (Pipelines.get_by_id i)
  unfolding Pipelines.get_by_id
  get_by_id-Keeps i = search keeps_rules

  pub get_active_executions-Keeps : Keeps R Pipelines.get_active_executions
  unfolding Pipelines.get_active_executions
  get_active_executions-Keeps = search keeps_rules

  pub get_by_pipeline_and_task-Keeps :
      (i : ℕ) (ns : TaskNamespace) → Keeps R (get_by_pipeline_and_task i ns)
  unfolding get_by_pipeline_and_task
  get_by_pipeline_and_task-Keeps i ns = search keeps_rules

  pub declared_dependencies-Keeps :
      (registry : Registry) (t : TaskExecution) → Keeps R (declared_dependencies registry t)
  unfolding declared_dependencies
  declared_dependencies-Keeps registry t = search (keeps_rules, get_by_id-Keeps)

  module _ (json : Json) (registry : Registry) where
    read_context-Keeps : (i : ℕ) → Keeps R (read_context json i)
    unfolding read_context
    read_context-Keeps i = search keeps_rules

    or_failed-Keeps :
        (key : Text) (r : Result ValidationError (Context json.Value))
        → Keeps R (or_failed json key r)
    unfolding or_failed
    or_failed-Keeps key (ok c) = search keeps_rules
    or_failed-Keeps key (err e) = search keeps_rules

    initial_context-Keeps : (i : Option ℕ) → Keeps R (initial_context json i)
    unfolding initial_context
    initial_context-Keeps none = search keeps_rules
    initial_context-Keeps (some i) = search (keeps_rules, read_context-Keeps, or_failed-Keeps)

    saved_as-Keeps : (i : Option ℕ) → Keeps R (saved_as json i)
    unfolding saved_as
    saved_as-Keeps none = search keeps_rules
    saved_as-Keeps (some i) = search (keeps_rules, read_context-Keeps, or_failed-Keeps)

    saved_context-Keeps :
        (m : Result ValidationError TaskExecutionMetadata) → Keeps R (saved_context json m)
    unfolding saved_context
    saved_context-Keeps (ok m) = saved_as-Keeps m.context_id
    saved_context-Keeps (err e) = search keeps_rules

    merge_read-Keeps :
        (merged : Context json.Value) (r : Result ValidationError (Context json.Value))
        → Keeps R (merge_read json merged r)
    unfolding merge_read
    merge_read-Keeps merged (ok c) = search keeps_rules
    merge_read-Keeps merged (err e) = search keeps_rules

    merge_stored-Keeps :
        (merged : Context json.Value) (i : Option ℕ) → Keeps R (merge_stored json merged i)
    unfolding merge_stored
    merge_stored-Keeps merged none = search keeps_rules
    merge_stored-Keeps merged (some i) = search (keeps_rules, read_context-Keeps, merge_read-Keeps)

    merge_saved-Keeps :
        (merged : Context json.Value) (m : Result ValidationError TaskExecutionMetadata)
        → Keeps R (merge_saved json merged m)
    unfolding merge_saved
    merge_saved-Keeps merged (ok m) = merge_stored-Keeps merged m.context_id
    merge_saved-Keeps merged (err e) = search keeps_rules

    merge_dependencies-Keeps :
        (i : ℕ) (deps : List TaskNamespace) (merged : Context json.Value)
        → Keeps R (merge_dependencies json i deps merged)
    unfolding merge_dependencies
    merge_dependencies-Keeps i [] merged = search keeps_rules
    merge_dependencies-Keeps i (dep ∷ deps) merged =
        Keeps-bind o (Keeps-attempt o (get_by_pipeline_and_task-Keeps i dep))
          λ row. Keeps-bind o (merge_saved-Keeps merged row) (merge_dependencies-Keeps i deps)

    load_for-Keeps :
        (t : TaskExecution) (p : PipelineExecution) (deps : List TaskNamespace)
        → Keeps R (load_for json t p deps)
    unfolding load_for merge_dependency_contexts
    load_for-Keeps t p [] = initial_context-Keeps p.context_id
    load_for-Keeps t p (dep ∷ []) =
        search (keeps_rules, get_by_pipeline_and_task-Keeps, saved_context-Keeps)
    load_for-Keeps t p (dep ∷ dep' ∷ deps) = merge_dependencies-Keeps _ _ _

    pub load_context-Keeps : (t : TaskExecution) → Keeps R (load_context_for_task json registry t)
    unfolding load_context_for_task
    load_context-Keeps t =
        Keeps-bind o (declared_dependencies-Keeps registry t) (λ d. load_for-Keeps t d.0 d.1)

    pub dependencies_ended-Keeps :
        (i : ℕ) (deps : List TaskNamespace) → Keeps R (dependencies_ended i deps)
    unfolding dependencies_ended
    dependencies_ended-Keeps i [] = search keeps_rules
    dependencies_ended-Keeps i (dep ∷ deps) = search (keeps_rules, get_task_statuses_batch-Keeps)
