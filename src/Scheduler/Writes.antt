-- ===== src/Scheduler/Writes.antt =====
-- The writing handlers of the scheduler go up in every preorder in which their single writes do.
-- `ids` are the tasks that may be written.
use cloacina.Common.{ℕ, ◌≡◌, List, [], ◌∷◌, Option, Text, Bool, true, false, mem, All, nat_eq}
use cloacina.Store.Rows.{TaskExecution, Status, status_eq}
use cloacina.Store.Monad.{Db}
use cloacina.Store.Keeps.{Order, Keeps, Keeps-bind, Keeps-then, Keeps-pure, Keeps-if, Keeps-lift}
use cloacina.Store.Tasks.{mark_ready, mark_skipped}
use cloacina.Scheduler.Rules.{
  Json, TriggerRule, TriggerCondition, task_success, task_failed, task_skipped, context_value,
  always, all_of, any_of, none_of,
}
use cloacina.Scheduler.Contexts.{Registry}
use cloacina.Scheduler.State.{
  Dispatch, check_task_dependencies, has_status, evaluate_condition, evaluate_until, evaluate_rule,
  evaluate_trigger_rules, dispatch_with, act_on, update_task_readiness,
  update_pipeline_task_readiness,
}
use cloacina.Scheduler.Reads.{
  get_task_status-Keeps, declared_dependencies-Keeps, load_context-Keeps, dependencies_ended-Keeps,
}

module _ {R : Db → Db → Type 0} (o : Order R) (json : Json) (registry : Registry)
    (dispatcher : Option Dispatch) where
  pub check_task_dependencies-Keeps :
      (t : TaskExecution) → Keeps R (check_task_dependencies json registry dispatcher t)
  unfolding check_task_dependencies
  check_task_dependencies-Keeps t =
      Keeps-bind o (declared_dependencies-Keeps o registry t)
        (λ d. dependencies_ended-Keeps o json registry t.pipeline_execution_id d.1)

  has_status-Keeps :
      (t : TaskExecution) (name : Text) (s : Status)
      → Keeps R (has_status json registry dispatcher t name s)
  unfolding has_status
  has_status-Keeps t name s =
      Keeps-bind o (get_task_status-Keeps o t.pipeline_execution_id name) (λ a. Keeps-pure o _)

  pub evaluate_condition-Keeps :
      (c : TriggerCondition json.Value) (t : TaskExecution)
      → Keeps R (evaluate_condition json registry dispatcher c t)
  unfolding evaluate_condition
  evaluate_condition-Keeps (task_success name) t = has_status-Keeps t name _
  evaluate_condition-Keeps (task_failed name) t = has_status-Keeps t name _
  evaluate_condition-Keeps (task_skipped name) t = has_status-Keeps t name _
  evaluate_condition-Keeps (context_value key op v) t =
      Keeps-bind o (load_context-Keeps o json registry t) (λ c. Keeps-pure o _)

  evaluate_until-Keeps :
      (stop early late : Bool) (cs : List (TriggerCondition json.Value)) (t : TaskExecution)
      → Keeps R (evaluate_until json registry dispatcher stop early late cs t)
  unfolding evaluate_until
  evaluate_until-Keeps stop early late [] t = Keeps-pure o _
  evaluate_until-Keeps stop early late (c ∷ cs) t =
      Keeps-bind o (evaluate_condition-Keeps c t)
        λ result. Keeps-if _ (Keeps-pure o _) (evaluate_until-Keeps stop early late cs t)

  evaluate_rule-Keeps :
      (rule : TriggerRule json.Value) (t : TaskExecution)
      → Keeps R (evaluate_rule json registry dispatcher rule t)
  unfolding evaluate_rule
  evaluate_rule-Keeps always t = Keeps-pure o _
  evaluate_rule-Keeps (all_of cs) t = evaluate_until-Keeps _ _ _ cs t
  evaluate_rule-Keeps (any_of cs) t = evaluate_until-Keeps _ _ _ cs t
  evaluate_rule-Keeps (none_of cs) t = evaluate_until-Keeps _ _ _ cs t

  pub evaluate_trigger_rules-Keeps :
      (t : TaskExecution) → Keeps R (evaluate_trigger_rules json registry dispatcher t)
  unfolding evaluate_trigger_rules
  evaluate_trigger_rules-Keeps t =
      Keeps-bind o (Keeps-lift o _) (λ rule. evaluate_rule-Keeps rule t)

  module _ (ids : List ℕ) (readies : (id : ℕ) → mem id ids ≡ true → Keeps R (mark_ready id))
      (skips : (id : ℕ) (reason : Text) → mem id ids ≡ true → Keeps R (mark_skipped id reason))
      (dispatches : (t : TaskExecution)
        → mem t.id ids ≡ true
        → Keeps R (dispatch_with dispatcher t)) where
    act_on-Keeps :
        (t : TaskExecution) (b : Bool)
        → mem t.id ids ≡ true
        → Keeps R (act_on json registry dispatcher t b)
    unfolding act_on
    act_on-Keeps t true m = Keeps-then o (readies t.id m) (dispatches t m)
    act_on-Keeps t false m = skips t.id _ m

    pub update_task_readiness-Keeps :
        (t : TaskExecution)
        → mem t.id ids ≡ true
        → Keeps R (update_task_readiness json registry dispatcher t)
    unfolding update_task_readiness
    update_task_readiness-Keeps t m = Keeps-bind o (check_task_dependencies-Keeps t) λ b.
        Keeps-if b
          (Keeps-bind o (evaluate_trigger_rules-Keeps t) (λ passed. act_on-Keeps t passed m))
          (Keeps-pure o _)

    pub update_pipeline-Keeps :
        (ts : List TaskExecution)
        → All (λ t. mem t.id ids ≡ true) ts
        → Keeps R (update_pipeline_task_readiness json registry dispatcher ts)
    unfolding update_pipeline_task_readiness
    update_pipeline-Keeps [] h = Keeps-pure o _
    update_pipeline-Keeps (t ∷ ts) h =
        Keeps-then o (update_task_readiness-Keeps t h.0) (update_pipeline-Keeps ts h.1)
