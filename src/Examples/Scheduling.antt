-- ===== src/Examples/Scheduling.antt =====
-- The scheduling loop: crates/cloacina/src/task_scheduler.
use cloacina.Common.{ok, ℕ, ◌≡◌, ◌⊎◌, refl, none, some, [], ◌∷◌, true, text_beq}
use cloacina.Namespace.{to_string}
use cloacina.Store.Monad.{Db, BackendType, connect, gets, modify, pure, ◌>>=◌, ◌>>◌}
use cloacina.Store.Pipelines
use cloacina.Store.Tasks.{mark_completed}
use cloacina.Store.Keeps.{Keeps-pure}
use cloacina.Store.Frame.{others, mark_completed-Untouched}
use cloacina.Store.Queries.{get_task_status, find_status, found}
use cloacina.Scheduler.Rules.{TriggerRule, task_success, all_of}
use cloacina.Scheduler.State.{
  Dispatch, dispatch_with, update_task_readiness, evaluate_condition, evaluate_until, evaluate_rule,
  has_status,
}
use cloacina.Scheduler.Ending.{completed_in, finish_pipeline-completes}
use cloacina.Scheduler.Loop.{finish_pipeline, process_pipeline, process_active_pipelines}
use cloacina.Scheduler.Dependencies.{Satisfied, update_task_readiness-Satisfied}
use cloacina.Scheduler.Completion.{
  SamePipelines-Order, LeavesPipelines, all_ended, process_pipeline-all_ended,
}
use cloacina.Scheduler.Cancelling.{pending_elsewhere, cancel-stops}
use cloacina.Scheduler.Safety.{pending_ids, Confined, process_active_pipelines-frame}
use cloacina.Scheduler.Verdicts.{RuleVerdict, evaluate_rule_lem}
use cloacina.Examples.Samples.{
  json, registry, run, database, extract_ns, extract_done, load_waiting,
}

abbrev half_done : Db
half_done = database BackendType.postgres (extract_done ∷ load_waiting ∷ [])

-- An executor that runs the task at once.
abbrev run_at_once : Dispatch
run_at_once event = mark_completed event.task_execution_id

run_at_once-Confined : Confined run_at_once
run_at_once-Confined ids event m = mark_completed-Untouched ids event.task_execution_id m

no_dispatcher-LeavesPipelines : LeavesPipelines none
unfolding dispatch_with
no_dispatcher-LeavesPipelines t = Keeps-pure SamePipelines-Order tt

update_task_readiness-Satisfied_example :
    ((update_task_readiness json registry (some run_at_once) load_waiting half_done).1.tasks
      ≡ half_done.tasks)
    ⊎ Satisfied json registry (some run_at_once) load_waiting half_done
update_task_readiness-Satisfied_example =
    update_task_readiness-Satisfied json registry (some run_at_once) load_waiting half_done

process_pipeline-all_ended_example :
    ((process_pipeline json registry none [] run half_done).1.pipelines ≡ half_done.pipelines)
    ⊎ (all_ended 7 (process_pipeline json registry none [] run half_done).1.tasks ≡ true)
process_pipeline-all_ended_example =
    process_pipeline-all_ended json registry none no_dispatcher-LeavesPipelines [] run half_done

process_active_pipelines-frame_example :
    others
      (pending_ids half_done.tasks)
      (process_active_pipelines json registry (some run_at_once) half_done).1.tasks
    ≡ others (pending_ids half_done.tasks) half_done.tasks
process_active_pipelines-frame_example =
    process_active_pipelines-frame json registry (some run_at_once) run_at_once-Confined half_done

cancel-stops_example :
    others
      (pending_elsewhere 7 half_done.tasks)
      (process_active_pipelines json registry
        (some run_at_once)
        (Pipelines.cancel 7 half_done).1).1.tasks
    ≡ others (pending_elsewhere 7 half_done.tasks) half_done.tasks
unfolding Pipelines.cancel connect modify gets ◌>>=◌ ◌>>◌
cancel-stops_example =
    cancel-stops json registry (some run_at_once) run_at_once-Confined 7 half_done refl

abbrev after_extract : TriggerRule ℕ
after_extract = all_of (task_success (to_string extract_ns) ∷ [])

evaluate_rule_lem_example : RuleVerdict json registry load_waiting half_done after_extract
unfolding evaluate_rule evaluate_until evaluate_condition has_status get_task_status find_status
    found connect gets pure ◌>>=◌ ◌>>◌ text_beq to_string
evaluate_rule_lem_example =
    evaluate_rule_lem json registry none after_extract load_waiting half_done refl

abbrev all_done : Db
all_done = database BackendType.sqlite (extract_done ∷ [])

finish_pipeline-completes_example :
    ((finish_pipeline json registry none run true all_done).0 ≡ ok tt)
    × (completed_in 7 (finish_pipeline json registry none run true all_done).1.pipelines ≡ true)
unfolding all_ended
finish_pipeline-completes_example =
    finish_pipeline-completes json registry none run all_done (λ k. refl) refl
