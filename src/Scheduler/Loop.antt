-- ===== src/Scheduler/Loop.antt =====
-- crates/cloacina/src/task_scheduler/scheduler_loop.rs: one round over the active pipelines, and
-- the completion of a pipeline. `run` repeats the round at each tick of a timer and is not modelled.
use cloacina.Common.{
  ℕ, Bool, true, false, ◌||◌, List, [], ◌∷◌, ◌++◌, map, Option, none, some, Text, ◌==◌, nat_eq,
  if◌then◌else◌, Result, ok, err, ltb, is_empty,
}
use cloacina.Common.Dict
use cloacina.Common.Dict.{HashMap}
use cloacina.Namespace.{TaskNamespace, from_string}
use cloacina.Store.Rows.{TaskExecution, PipelineExecution, TaskExecutionMetadata, Status, status_eq}
use cloacina.Store.Monad.{M, ValidationError, ◌>>=◌, ◌>>◌, pure, lift, attempt_of}
use cloacina.Store.Queries.{
  get_pending_tasks_batch, check_pipeline_completion, get_all_tasks_for_pipeline,
}
use cloacina.Store.Pipelines
use cloacina.Scheduler.Rules.{Json}
use cloacina.Scheduler.Contexts.{Registry, get_by_pipeline_and_task}
use cloacina.Scheduler.State.{Dispatch, update_pipeline_task_readiness}

abbrev pub or_nil : Option (List TaskExecution) → List TaskExecution
or_nil none = []
or_nil (some ts) = ts

-- `tasks_by_pipeline`
unfoldable pub group_tasks :
    List TaskExecution → HashMap ℕ (List TaskExecution) → HashMap ℕ (List TaskExecution)
group_tasks [] groups = groups
group_tasks (t ∷ ts) groups =
    let i = t.pipeline_execution_id in
    group_tasks ts (Dict.insert i (or_nil (Dict.get i groups) ++ t ∷ []) groups)

-- The latest completion with a context: its time and the context.
abbrev pub Latest : Type 0
Latest = Option (ℕ × ℕ)

abbrev pub is_later : ℕ → Latest → Bool
is_later completed_at none = true
is_later completed_at (some latest) = ltb latest.0 completed_at

abbrev pub later_of : ℕ → Latest → Result ValidationError TaskExecutionMetadata → Latest
later_of completed_at latest (err e) = latest
later_of completed_at latest (ok m) = elim m.context_id [
  | none ↦ latest
  | some context_id ↦
      if is_later completed_at latest then some (completed_at, context_id) else latest
]

abbrev valid_name : TaskExecution → Result Text TaskNamespace → Result ValidationError TaskNamespace
valid_name t (ok ns) = ok ns
valid_name t (err e) = err (ValidationError.invalid_task_name t.task_name)

unfoldable pub consider : ℕ → TaskExecution → Latest → ℕ → M Latest
consider pipeline_execution_id t latest completed_at = do
  ns ← lift (valid_name t (from_string t.task_name))
  row ← attempt_of (get_by_pipeline_and_task pipeline_execution_id ns)
  pure (later_of completed_at latest row)

unfoldable pub consider_at : ℕ → TaskExecution → Latest → Option ℕ → M Latest
consider_at pipeline_execution_id t latest none = pure latest
consider_at pipeline_execution_id t latest (some completed_at) =
    consider pipeline_execution_id t latest completed_at

-- Only completed and skipped tasks that have a completion time count.
unfoldable pub find_final_context : ℕ → List TaskExecution → Latest → M Latest
find_final_context pipeline_execution_id [] latest = pure latest
find_final_context pipeline_execution_id (t ∷ ts) latest = do
  latest' ←
      (if t.status == Status.completed || t.status == Status.skipped
        then consider_at pipeline_execution_id t latest t.completed_at
        else pure latest)
  find_final_context pipeline_execution_id ts latest'

unfoldable pub store_final : ℕ → Latest → M (Unit {0})
store_final pipeline_execution_id none = pure tt
store_final pipeline_execution_id (some latest) =
    Pipelines.update_final_context pipeline_execution_id latest.1

unfoldable pub update_pipeline_final_context : ℕ → List TaskExecution → M (Unit {0})
update_pipeline_final_context pipeline_execution_id all_tasks = do
  latest ← find_final_context pipeline_execution_id all_tasks none
  store_final pipeline_execution_id latest

unfoldable pub complete_pipeline : PipelineExecution → M (Unit {0})
complete_pipeline execution = do
  all_tasks ← get_all_tasks_for_pipeline execution.id
  attempt_of (update_pipeline_final_context execution.id all_tasks) >>= λ _. pure tt
  Pipelines.mark_completed execution.id

abbrev is_ok : Result ValidationError (Unit {0}) → Bool
is_ok (ok _) = true
is_ok (err _) = false

module _ (json : Json) (registry : Registry) (dispatcher : Option Dispatch) where
  -- The readiness of one pipeline's pending tasks; `false` is the `continue` after an error.
  unfoldable pub update_readiness : Option (List TaskExecution) → M Bool
  update_readiness none = pure true
  update_readiness (some pipeline_tasks) = do
    r ← attempt_of (update_pipeline_task_readiness json registry dispatcher pipeline_tasks)
    pure (is_ok r)

  unfoldable pub finish_pipeline : PipelineExecution → Bool → M (Unit {0})
  finish_pipeline execution false = pure tt
  finish_pipeline execution true = do
    complete ← check_pipeline_completion execution.id
    if complete then complete_pipeline execution else pure tt

  -- The body of the loop over the active executions.
  unfoldable pub process_pipeline :
      HashMap ℕ (List TaskExecution) → PipelineExecution → M (Unit {0})
  process_pipeline tasks_by_pipeline execution = do
    go_on ← update_readiness (Dict.get execution.id tasks_by_pipeline)
    finish_pipeline execution go_on

  unfoldable pub process_pipelines :
      HashMap ℕ (List TaskExecution) → List PipelineExecution → M (Unit {0})
  process_pipelines tasks_by_pipeline [] = pure tt
  process_pipelines tasks_by_pipeline (execution ∷ executions) = do
    process_pipeline tasks_by_pipeline execution
    process_pipelines tasks_by_pipeline executions

  unfoldable pub process_pipelines_batch : List PipelineExecution → M (Unit {0})
  process_pipelines_batch active_executions = do
    all_pending_tasks ← get_pending_tasks_batch (map (λ p. p.id) active_executions)
    process_pipelines (group_tasks all_pending_tasks []) active_executions

  unfoldable pub process_active_pipelines : M (Unit {0})
  process_active_pipelines = do
    active_executions ← Pipelines.get_active_executions
    if is_empty active_executions then pure tt else process_pipelines_batch active_executions
