-- ===== src/Scheduler/Contexts.antt =====
-- crates/cloacina/src/task_scheduler/context_manager.rs: the context of a task, from its
-- dependencies, and the conditions on it.
use cloacina.Common.{
  ℕ, Bool, false, ◌&&◌, ◌||◌, not, List, [], ◌∷◌, Option, none, some, Text, codes, ◌==◌, text_eq,
  nat_eq, if◌then◌else◌, Result, ok, err, text_contains,
}
use cloacina.Common.Dict
use cloacina.Common.Dict.{HashMap, is_some}
use cloacina.Namespace
use cloacina.Namespace.{TaskNamespace, to_string}
use cloacina.Context
use cloacina.Context.{Context, ContextError}
use cloacina.Store.Rows.{TaskExecution, PipelineExecution, TaskExecutionMetadata}
use cloacina.Store.Monad.{
  M, ValidationError, ◌>>=◌, ◌>>◌, connect, gets, pure, throw, lift, attempt_of,
}
use cloacina.Store.Queries.{found}
use cloacina.Store.Pipelines
use cloacina.Workflow.Tasks
use cloacina.Workflow.Tasks.{Workflow, WorkflowError, task_not_found}
use cloacina.Scheduler.Rules.{Json, ValueOperator}

-- The constructor of a workflow by its name, in the global registry.
abbrev pub Registry : Type 0
Registry = Text → Option Workflow

abbrev pub workflow_in : Registry → Text → Result ValidationError Workflow
workflow_in registry name = elim (registry name) [
  | none ↦ err (ValidationError.workflow_not_found name)
  | some workflow ↦ ok workflow
]

abbrev namespace_of : Text → Result Text TaskNamespace → Result ValidationError TaskNamespace
namespace_of task_name (ok ns) = ok ns
namespace_of task_name (err e) = err (ValidationError.invalid_task_name e)

abbrev deps_or_error :
    Result WorkflowError (List TaskNamespace) → Result ValidationError (List TaskNamespace)
deps_or_error (ok deps) = ok deps
deps_or_error (err (task_not_found ns)) = err (ValidationError.invalid_task_name (to_string ns))
deps_or_error (err e) = err (ValidationError.invalid_task_name [])

-- The opening of `check_task_dependencies` and of `load_context_for_task`: the task's pipeline and
-- the dependencies that its workflow declares.
unfoldable pub declared_dependencies :
    Registry → TaskExecution → M (PipelineExecution × List TaskNamespace)
declared_dependencies registry task_execution = do
  pipeline ← Pipelines.get_by_id task_execution.pipeline_execution_id
  workflow ← lift (workflow_in registry pipeline.pipeline_name)
  ns ← lift (namespace_of task_execution.task_name (Namespace.from_string task_execution.task_name))
  deps ← lift (deps_or_error (Tasks.get_dependencies ns workflow))
  pure (pipeline, deps)

-- `TaskExecutionMetadataDAL::get_by_pipeline_and_task`
unfoldable pub find_metadata : ℕ → Text → List TaskExecutionMetadata → Option TaskExecutionMetadata
find_metadata pipeline_execution_id task_name [] = none
find_metadata pipeline_execution_id task_name (m ∷ ms) =
    if m.pipeline_execution_id == pipeline_execution_id && m.task_name == task_name
    then some m
    else find_metadata pipeline_execution_id task_name ms

unfoldable pub get_by_pipeline_and_task : ℕ → TaskNamespace → M TaskExecutionMetadata
get_by_pipeline_and_task pipeline_execution_id ns = do
  connect
  row ← gets (λ db. find_metadata pipeline_execution_id (to_string ns) db.metadata)
  found row

module _ (json : Json) where
  open json use {Value, context_from_json}

  -- `ContextDAL::read`
  unfoldable pub read_context : ℕ → M (Context Value)
  read_context context_id = do
    connect
    text ← gets (λ db. Dict.get context_id db.contexts)
    stored ← found text
    entries ← found (context_from_json stored)
    pure (Context.from_data entries)

  unfoldable pub or_failed : Text → Result ValidationError (Context Value) → M (Context Value)
  or_failed key (ok context) = pure context
  or_failed key (err e) = throw (ValidationError.context_evaluation_failed key)

  -- The context of a pipeline whose task has no dependency.
  unfoldable pub initial_context : Option ℕ → M (Context Value)
  initial_context none = pure Context.new
  initial_context (some context_id) = do
    r ← attempt_of (read_context context_id)
    or_failed (codes "context_id:") r

  unfoldable pub saved_as : Option ℕ → M (Context Value)
  saved_as none = pure Context.new
  saved_as (some context_id) = do
    r ← attempt_of (read_context context_id)
    or_failed (codes "context_read_error:") r

  -- A dependency without metadata or without an output has the empty context.
  unfoldable pub saved_context : Result ValidationError TaskExecutionMetadata → M (Context Value)
  saved_context (err e) = pure Context.new
  saved_context (ok m) = saved_as m.context_id

  -- One entry of a dependency's context: an existing key is updated, a new one is inserted.
  unfoldable pub merge_entry : Text → Value → Context Value → Result ContextError (Context Value)
  merge_entry key value merged =
      if is_some (Context.get key merged)
      then Context.update key value merged
      else Context.insert key value merged

  unfoldable pub merge_entries :
      HashMap Text Value → Context Value → Result ContextError (Context Value)
  merge_entries [] merged = ok merged
  merge_entries ((key, value) ∷ entries) merged = elim (merge_entry key value merged) [
    | ok merged' ↦ merge_entries entries merged'
    | err e ↦ err e
  ]

  abbrev merge_error : Result ContextError (Context Value) → Result ValidationError (Context Value)
  merge_error (ok merged) = ok merged
  merge_error (err e) = err (ValidationError.context_evaluation_failed (codes "merge_error:"))

  unfoldable pub merge_read :
      Context Value → Result ValidationError (Context Value) → M (Context Value)
  merge_read merged (err e) = pure merged
  merge_read merged (ok dep_context) = lift (merge_error (merge_entries dep_context.data_ merged))

  unfoldable pub merge_stored : Context Value → Option ℕ → M (Context Value)
  merge_stored merged none = pure merged
  merge_stored merged (some context_id) = do
    r ← attempt_of (read_context context_id)
    merge_read merged r

  -- Metadata and contexts that cannot be read are passed over.
  unfoldable pub merge_saved :
      Context Value → Result ValidationError TaskExecutionMetadata → M (Context Value)
  merge_saved merged (err e) = pure merged
  merge_saved merged (ok m) = merge_stored merged m.context_id

  unfoldable pub merge_dependencies : ℕ → List TaskNamespace → Context Value → M (Context Value)
  merge_dependencies pipeline_execution_id [] merged = pure merged
  merge_dependencies pipeline_execution_id (dep ∷ deps) merged = do
    row ← attempt_of (get_by_pipeline_and_task pipeline_execution_id dep)
    merged' ← merge_saved merged row
    merge_dependencies pipeline_execution_id deps merged'

  unfoldable pub merge_dependency_contexts : TaskExecution → List TaskNamespace → M (Context Value)
  merge_dependency_contexts task_execution dependencies =
      merge_dependencies task_execution.pipeline_execution_id dependencies Context.new

  -- No dependency, one, or several.
  unfoldable pub load_for :
      TaskExecution → PipelineExecution → List TaskNamespace → M (Context Value)
  load_for task_execution pipeline [] = initial_context pipeline.context_id
  load_for task_execution pipeline (dep ∷ []) = do
    row ← attempt_of (get_by_pipeline_and_task task_execution.pipeline_execution_id dep)
    saved_context row
  load_for task_execution pipeline (dep ∷ dep' ∷ deps) =
      merge_dependency_contexts task_execution (dep ∷ dep' ∷ deps)

  unfoldable pub load_context_for_task : Registry → TaskExecution → M (Context Value)
  load_context_for_task registry task_execution = do
    declared ← declared_dependencies registry task_execution
    load_for task_execution declared.0 declared.1

  abbrev pub value_mem : Value → List Value → Bool
  value_mem v [] = false
  value_mem v (x ∷ xs) = json.value_eq x v || value_mem v xs

  abbrev pub on_numbers : (Value → Value → Bool) → Option Value → Value → Bool
  on_numbers test none expected = false
  on_numbers test (some a) expected = json.is_number a && json.is_number expected && test a expected

  abbrev pub holds_in : Option Value → Value → Bool
  holds_in none expected = false
  holds_in (some a) expected =
      if json.is_string a && json.is_string expected
      then text_contains (json.as_str a) (json.as_str expected)
      else json.is_array a && value_mem expected (json.as_array a)

  abbrev pub equals_value : Option Value → Value → Bool
  equals_value none expected = false
  equals_value (some a) expected = json.value_eq a expected

  -- Every branch is `Ok`. `NotContains` is the negation of the recursive call with `Contains`.
  unfoldable pub evaluate_context_condition : Context Value → Text → ValueOperator → Value → Bool
  evaluate_context_condition context key ValueOperator.exists expected =
      is_some (Context.get key context)
  evaluate_context_condition context key ValueOperator.not_exists expected =
      not (is_some (Context.get key context))
  evaluate_context_condition context key ValueOperator.equals expected =
      equals_value (Context.get key context) expected
  evaluate_context_condition context key ValueOperator.not_equals expected =
      not (equals_value (Context.get key context) expected)
  evaluate_context_condition context key ValueOperator.greater_than expected =
      on_numbers (λ a b. json.f64_lt (json.as_f64 b) (json.as_f64 a)) (Context.get key context)
        expected
  evaluate_context_condition context key ValueOperator.less_than expected =
      on_numbers (λ a b. json.f64_lt (json.as_f64 a) (json.as_f64 b)) (Context.get key context)
        expected
  evaluate_context_condition context key ValueOperator.contains expected =
      holds_in (Context.get key context) expected
  evaluate_context_condition context key ValueOperator.not_contains expected =
      not (holds_in (Context.get key context) expected)
