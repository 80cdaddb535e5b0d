-- ===== src/Scheduler/Schedule.antt =====
-- crates/cloacina/src/task_scheduler/mod.rs: the start of an execution, whose pipeline and tasks are
-- inserted in one transaction.
use cloacina.Common.{
  ℕ, List, [], ◌∷◌, ◌++◌, map, Option, none, some, Text, ◌==◌, text_eq, if◌then◌else◌, Result, ok,
  err,
}
use cloacina.Common.Dict.{HashMap}
use cloacina.Namespace.{TaskNamespace, to_string}
use cloacina.Context.{Context}
use cloacina.Store.Rows.{TaskExecution, PipelineExecution, PipelineStatus, Status}
use cloacina.Store.Monad.{
  M, ValidationError, context_error, ◌>>=◌, ◌>>◌, connect, now, new_v4, modify, pure, lift,
  attempt_of,
}
use cloacina.Store.Tasks.{new_row}
use cloacina.Store.Pipelines
use cloacina.Workflow.Graph.{Petgraph}
use cloacina.Workflow.Tasks
use cloacina.Workflow.Tasks.{Workflow, WorkflowError, Task}
use cloacina.Scheduler.Contexts.{Registry, workflow_in}

-- What serde_json writes for a context, if it can, and a text without its white space.
pub record Serde (Value : Type 0) : Type 0 where
  pub to_json : HashMap Text Value → Option Text
  pub without_whitespace : Text → Text
  -- `{"type":"Always"}` and `{}`
  pub always_json : Text
  pub empty_object : Text

abbrev as_context_error : {A : Type 0} → Result ValidationError A → Result ValidationError A
as_context_error (ok a) = ok a
as_context_error (err e) = err context_error

unfoldable pub insert_context : Text → M (Option ℕ)
insert_context value = do
  connect
  id ← new_v4
  modify (λ db. record db { contexts = db.contexts ++ (id, value) ∷ [] })
  pure (some id)

module _ {Value : Type 0} (serde : Serde Value) where
  -- `ContextDAL::create`: an empty context is not stored.
  unfoldable pub create_value : Option Text → M (Option ℕ)
  create_value none = lift (err context_error)
  create_value (some value) =
      if serde.without_whitespace value == serde.empty_object
      then pure none
      else insert_context value

  unfoldable pub create_context : Context Value → M (Option ℕ)
  create_context context = do
    r ← attempt_of (create_value (serde.to_json context.data_))
    lift (as_context_error r)

  pub record TaskData : Type 0 where
    pub task_name : Text
    pub trigger_rules : Text
    pub task_config : Text
    pub max_attempts : ℕ

  abbrev rules_or_always : Result WorkflowError Task → Text
  rules_or_always (ok task) = task.trigger_rules
  rules_or_always (err e) = serde.always_json

  abbrev attempts_or_three : Result WorkflowError Task → ℕ
  attempts_or_three (ok task) = task.max_attempts
  attempts_or_three (err e) = 3

  abbrev pub task_data : Workflow → TaskNamespace → TaskData
  task_data workflow task_id = record {
    task_name = to_string task_id;
    trigger_rules = rules_or_always (Tasks.get_task task_id workflow);
    task_config = serde.empty_object;
    max_attempts = attempts_or_three (Tasks.get_task task_id workflow);
  }

  abbrev pub not_started_row : ℕ → ℕ → TaskData → ℕ → TaskExecution
  not_started_row pipeline_id at d id =
      new_row
        (record {
          pipeline_execution_id = pipeline_id;
          task_name = d.task_name;
          status = Status.not_started;
          attempt = 1;
          max_attempts = d.max_attempts;
          trigger_rules = d.trigger_rules;
          task_configuration = d.task_config;
        })
        id at

  -- The rows of the transaction, each with an identifier of its own draw.
  unfoldable pub new_rows : ℕ → ℕ → List TaskData → M (List TaskExecution)
  new_rows pipeline_id at [] = pure []
  new_rows pipeline_id at (d ∷ rest) = do
    id ← new_v4
    rows ← new_rows pipeline_id at rest
    pure (not_started_row pipeline_id at d id ∷ rows)

  abbrev pub pending_pipeline : ℕ → ℕ → Text → Text → Option ℕ → PipelineExecution
  pending_pipeline id at name version context_id = record {
    id = id;
    pipeline_name = name;
    pipeline_version = version;
    status = PipelineStatus.pending;
    context_id = context_id;
    started_at = at;
    completed_at = none;
    error_details = none;
    recovery_attempts = 0;
    last_recovery_at = none;
    created_at = at;
    updated_at = at;
  }

  unfoldable pub create_pipeline : ℕ → ℕ → Text → Text → Option ℕ → List TaskData → M (Unit {0})
  create_pipeline id at name version context_id task_data = do
    connect
    rows ← new_rows id at task_data
    modify (λ db. record db {
      pipelines = db.pipelines ++ pending_pipeline id at name version context_id ∷ [];
      tasks = db.tasks ++ rows;
    })

  module _ (petgraph : Petgraph) (registry : Registry) where
    unfoldable pub start_pipeline : Text → Workflow → Option ℕ → List TaskNamespace → M ℕ
    start_pipeline workflow_name workflow stored_context task_ids = do
      pipeline_id ← new_v4
      at ← now
      create_pipeline pipeline_id at workflow_name workflow.metadata.version stored_context
          (map (task_data workflow) task_ids)
      pure pipeline_id

    -- The last version is only logged.
    unfoldable pub schedule_workflow_execution : Text → Context Value → M ℕ
    schedule_workflow_execution workflow_name input_context = do
      workflow ← lift (workflow_in registry workflow_name)
      last_version ← Pipelines.get_last_version workflow_name
      stored_context ← create_context input_context
      task_ids ← lift (Tasks.topological_sort petgraph workflow)
      start_pipeline workflow_name workflow stored_context task_ids
