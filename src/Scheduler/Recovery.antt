-- ===== src/Scheduler/Recovery.antt =====
-- crates/cloacina/src/task_scheduler/recovery.rs: tasks that a crash left running are reset or
-- abandoned. The details of a recovery event are JSON for monitoring and are left out.
use cloacina.Common.{
  ℕ, ◌+◌, Bool, true, false, List, [], ◌∷◌, ◌++◌, Option, none, some, Text, codes, nat_eq,
  if◌then◌else◌, Result, ok, leb, length,
}
use cloacina.Common.Dict
use cloacina.Common.Dict.{HashMap, is_some}
use cloacina.Store.Rows.{
  TaskExecution, PipelineExecution, NewRecoveryEvent, RecoveryType, task_reset, task_abandoned,
  workflow_unavailable,
}
use cloacina.Store.Monad.{M, ValidationError, ◌>>=◌, ◌>>◌, connect, modify, pure, attempt_of}
use cloacina.Store.Queries.{get_orphaned_tasks, check_pipeline_failure}
use cloacina.Store.Tasks.{mark_abandoned, reset_task_for_recovery}
use cloacina.Store.Pipelines
use cloacina.Scheduler.Contexts.{Registry}

pub data RecoveryResult : Type 0 where
  recovered abandoned : RecoveryResult

abbrev pub max_recovery_attempts : ℕ
max_recovery_attempts = 3

-- `RecoveryEventDAL::create`
unfoldable pub record_recovery_event : NewRecoveryEvent → M (Unit {0})
record_recovery_event event = do
  connect
  modify (λ db. record db { recovery_events = db.recovery_events ++ event ∷ [] })

abbrev pub event : ℕ → Option ℕ → RecoveryType → NewRecoveryEvent
event pipeline task kind = record {
  pipeline_execution_id = pipeline;
  task_execution_id = task;
  recovery_type = kind;
}

unfoldable pub fail_pipeline : TaskExecution → Bool → M (Unit {0})
fail_pipeline task false = pure tt
fail_pipeline task true =
    Pipelines.mark_failed task.pipeline_execution_id
      (codes "Task abandonment caused pipeline failure")

unfoldable pub abandon_task_permanently : TaskExecution → M (Unit {0})
abandon_task_permanently task = do
  mark_abandoned task.id (codes "Exceeded recovery attempts")
  pipeline_failed ← check_pipeline_failure task.pipeline_execution_id
  fail_pipeline task pipeline_failed
  record_recovery_event (event task.pipeline_execution_id (some task.id) task_abandoned)

abbrev abandon : TaskExecution → M RecoveryResult
abandon task = abandon_task_permanently task >>= λ _. pure abandoned

abbrev reset : TaskExecution → M RecoveryResult
reset task = do
  reset_task_for_recovery task.id
  record_recovery_event (event task.pipeline_execution_id (some task.id) task_reset)
  pure recovered

unfoldable pub recover_single_task : TaskExecution → M RecoveryResult
recover_single_task task =
    if leb max_recovery_attempts task.recovery_attempts then abandon task else reset task

abbrev count_recovered : Result ValidationError RecoveryResult → ℕ → ℕ
count_recovered (ok recovered) n = n + 1
count_recovered _ n = n

unfoldable pub recover_tasks : List TaskExecution → ℕ → M ℕ
recover_tasks [] recovered_count = pure recovered_count
recover_tasks (task ∷ tasks) recovered_count = do
  r ← attempt_of (recover_single_task task)
  recover_tasks tasks (count_recovered r recovered_count)

unfoldable pub recover_tasks_for_known_workflow : List TaskExecution → M ℕ
recover_tasks_for_known_workflow tasks = recover_tasks tasks 0

abbrev unavailable : PipelineExecution → Text
unavailable pipeline =
    codes "Workflow '" ++ pipeline.pipeline_name ++ codes "' no longer available in registry"

unfoldable pub abandon_all : PipelineExecution → List TaskExecution → M (Unit {0})
abandon_all pipeline [] = pure tt
abandon_all pipeline (task ∷ tasks) = do
  mark_abandoned task.id (unavailable pipeline)
  record_recovery_event (event pipeline.id (some task.id) workflow_unavailable)
  abandon_all pipeline tasks

unfoldable pub abandon_tasks_for_unknown_workflow : PipelineExecution → List TaskExecution → M ℕ
abandon_tasks_for_unknown_workflow pipeline tasks = do
  abandon_all pipeline tasks
  Pipelines.mark_failed pipeline.id (
      codes "Workflow '"
      ++ pipeline.pipeline_name
      ++ codes "' no longer available - abandoned during recovery")
  record_recovery_event (event pipeline.id none workflow_unavailable)
  pure (length tasks)

-- `tasks_by_pipeline`: the pipeline beside its orphaned tasks.
abbrev pub Groups : Type 0
Groups = HashMap ℕ (PipelineExecution × List TaskExecution)

abbrev pub push_task :
    PipelineExecution
    → TaskExecution
    → Option (PipelineExecution × List TaskExecution)
    → PipelineExecution × List TaskExecution
push_task pipeline task none = (pipeline, task ∷ [])
push_task pipeline task (some (p, tasks)) = (p, tasks ++ task ∷ [])

unfoldable pub group_by_pipeline : List TaskExecution → Groups → M Groups
group_by_pipeline [] groups = pure groups
group_by_pipeline (task ∷ tasks) groups = do
  pipeline ← Pipelines.get_by_id task.pipeline_execution_id
  group_by_pipeline tasks
      (Dict.insert pipeline.id (push_task pipeline task (Dict.get pipeline.id groups)) groups)

module _ (registry : Registry) where
  -- One pipeline's orphaned tasks; an error is logged, and the next pipeline follows.
  unfoldable pub recover_group : PipelineExecution → List TaskExecution → M ℕ
  recover_group pipeline tasks =
      if is_some (registry pipeline.pipeline_name)
      then recover_tasks_for_known_workflow tasks
      else abandon_tasks_for_unknown_workflow pipeline tasks

  unfoldable pub recover_groups : Groups → M (Unit {0})
  recover_groups [] = pure tt
  recover_groups ((pipeline_id, (pipeline, tasks)) ∷ groups) = do
    attempt_of (recover_group pipeline tasks) >>= λ _. pure tt
    recover_groups groups

  unfoldable pub recover_orphaned_tasks : M (Unit {0})
  recover_orphaned_tasks = do
    orphaned_tasks ← get_orphaned_tasks
    groups ← group_by_pipeline orphaned_tasks []
    recover_groups groups
