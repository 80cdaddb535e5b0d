-- ===== src/Scheduler/State.antt =====
-- crates/cloacina/src/task_scheduler/state_manager.rs: whether a pending task's dependencies have
-- ended, its trigger rule, and the step from pending to ready or skipped.
use cloacina.Common.{
  ℕ, Bool, true, false, not, List, [], ◌∷◌, map, Option, none, some, Text, codes, ◌==◌, nat_eq,
  text_eq, if◌then◌else◌, Result, ok, err, all,
}
use cloacina.Common.Dict
use cloacina.Common.Dict.{HashMap}
use cloacina.Namespace.{TaskNamespace, to_string}
use cloacina.Store.Rows.{TaskExecution, Status, status_eq}
use cloacina.Store.Monad.{M, ValidationError, ◌>>=◌, ◌>>◌, pure, lift, attempt_of}
use cloacina.Store.Queries.{is_terminal, get_task_status, get_task_statuses_batch}
use cloacina.Store.Tasks.{mark_ready, mark_skipped}
use cloacina.Scheduler.Rules.{
  Json, TriggerRule, TriggerCondition, task_success, task_failed, task_skipped, context_value,
  always, all_of, any_of, none_of,
}
use cloacina.Scheduler.Contexts.{
  Registry, declared_dependencies, load_context_for_task, evaluate_context_condition,
}

-- crates/cloacina/src/dispatcher/types.rs
pub record TaskReadyEvent : Type 0 where
  pub task_execution_id : ℕ
  pub pipeline_execution_id : ℕ
  pub task_name : Text
  pub attempt : ℕ

-- `Arc<dyn Dispatcher>`: what `dispatch` does to the database, and whether it fails.
abbrev pub Dispatch : Type 0
Dispatch = TaskReadyEvent → M (Unit {0})

abbrev pub event_of : TaskExecution → TaskReadyEvent
event_of t = record {
  task_execution_id = t.id;
  pipeline_execution_id = t.pipeline_execution_id;
  task_name = t.task_name;
  attempt = t.attempt;
}

abbrev pub ended : HashMap Text Status → TaskNamespace → Bool
ended status_map dependency = elim (Dict.get (to_string dependency) status_map) [
  | none ↦ false
  | some status ↦ is_terminal status
]

-- The check of the dependencies that the workflow declares.
unfoldable pub dependencies_ended : ℕ → List TaskNamespace → M Bool
dependencies_ended pipeline_execution_id [] = pure true
dependencies_ended pipeline_execution_id (dep ∷ deps) = do
  status_map ← get_task_statuses_batch pipeline_execution_id (map to_string (dep ∷ deps))
  pure (all (ended status_map) (dep ∷ deps))

unfoldable pub dispatch_with : Option Dispatch → TaskExecution → M (Unit {0})
dispatch_with none task_execution = pure tt
dispatch_with (some dispatch) task_execution =
    attempt_of (dispatch (event_of task_execution)) >>= λ _. pure tt

module _ (json : Json) (registry : Registry) (dispatcher : Option Dispatch) where
  open json use {Value, rule_from_json}

  unfoldable pub check_task_dependencies : TaskExecution → M Bool
  check_task_dependencies task_execution = do
    declared ← declared_dependencies registry task_execution
    dependencies_ended task_execution.pipeline_execution_id declared.1

  unfoldable pub has_status : TaskExecution → Text → Status → M Bool
  has_status task_execution task_name expected = do
    status ← get_task_status task_execution.pipeline_execution_id task_name
    pure (status == expected)

  unfoldable pub evaluate_condition : TriggerCondition Value → TaskExecution → M Bool
  evaluate_condition (task_success task_name) task_execution =
      has_status task_execution task_name Status.completed
  evaluate_condition (task_failed task_name) task_execution =
      has_status task_execution task_name Status.failed
  evaluate_condition (task_skipped task_name) task_execution =
      has_status task_execution task_name Status.skipped
  evaluate_condition (context_value key operator value) task_execution = do
    context ← load_context_for_task json registry task_execution
    pure (evaluate_context_condition json context key operator value)

  -- The loops of the three rules: `stop` is the result of a condition that ends the loop, and the
  -- rule then answers `early`, and `late` when every condition passed by.
  unfoldable pub evaluate_until :
      Bool → Bool → Bool → List (TriggerCondition Value) → TaskExecution → M Bool
  evaluate_until stop early late [] task_execution = pure late
  evaluate_until stop early late (c ∷ cs) task_execution = do
    result ← evaluate_condition c task_execution
    let rest = evaluate_until stop early late cs task_execution
    if (if stop then result else not result) then pure early else rest

  unfoldable pub evaluate_rule : TriggerRule Value → TaskExecution → M Bool
  evaluate_rule always task_execution = pure true
  evaluate_rule (all_of conditions) task_execution =
      evaluate_until false false true conditions task_execution
  evaluate_rule (any_of conditions) task_execution =
      evaluate_until true true false conditions task_execution
  evaluate_rule (none_of conditions) task_execution =
      evaluate_until true false true conditions task_execution

  abbrev rule_of : Text → Option (TriggerRule Value) → Result ValidationError (TriggerRule Value)
  rule_of text none = err (ValidationError.invalid_trigger_rule text)
  rule_of text (some rule) = ok rule

  unfoldable pub evaluate_trigger_rules : TaskExecution → M Bool
  evaluate_trigger_rules task_execution = do
    rule ← lift (rule_of task_execution.trigger_rules (rule_from_json task_execution.trigger_rules))
    evaluate_rule rule task_execution

  -- The dispatch after a task was marked ready; its error is only logged.
  abbrev dispatch_ready : TaskExecution → M (Unit {0})
  dispatch_ready task_execution = dispatch_with dispatcher task_execution

  unfoldable pub act_on : TaskExecution → Bool → M (Unit {0})
  act_on task_execution true = do mark_ready task_execution.id; dispatch_ready task_execution
  act_on task_execution false = mark_skipped task_execution.id (codes "Trigger rules not satisfied")

  -- The body of the loop for one pending task.
  unfoldable pub update_task_readiness : TaskExecution → M (Unit {0})
  update_task_readiness task_execution = do
    dependencies_satisfied ← check_task_dependencies task_execution
    let decide = evaluate_trigger_rules task_execution >>= act_on task_execution
    if dependencies_satisfied then decide else pure tt

  unfoldable pub update_pipeline_task_readiness : List TaskExecution → M (Unit {0})
  update_pipeline_task_readiness [] = pure tt
  update_pipeline_task_readiness (t ∷ ts) = do
    update_task_readiness t
    update_pipeline_task_readiness ts
