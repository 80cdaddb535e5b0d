-- ===== src/Examples/Readiness.antt =====
-- The step from waiting to ready: crates/cloacina/src/task_scheduler/state_manager.rs.
use cloacina.Common.{◌≡◌, refl, none, ok, true, [], ◌∷◌, text_beq}
use cloacina.Common.Dict
use cloacina.Namespace.{from_string, split_colons, to_string, namespace_beq}
use cloacina.Store.Monad.{Db, BackendType, connect, gets, pure, lift, ◌>>=◌, ◌>>◌}
use cloacina.Store.Pipelines
use cloacina.Store.Queries.{found}
use cloacina.Workflow.Tasks
use cloacina.Scheduler.Contexts.{declared_dependencies}
use cloacina.Scheduler.State.{update_task_readiness}
use cloacina.Scheduler.Progress.{only_ended, ready_in, update_task_readiness-ready}
use cloacina.Examples.Samples.{
  json, registry, run, database, extract_ns, extract_done, load_waiting,
}

abbrev waiting : Db
waiting = database BackendType.postgres (extract_done ∷ load_waiting ∷ [])

update_task_readiness-ready_example :
    ((update_task_readiness json registry none load_waiting waiting).0 ≡ ok tt)
    × (ready_in 2 (update_task_readiness json registry none load_waiting waiting).1.tasks ≡ true)
unfolding declared_dependencies Pipelines.get_by_id Pipelines.find_pipeline found connect gets pure
    lift ◌>>=◌ ◌>>◌ from_string split_colons to_string namespace_beq text_beq Tasks.get_dependencies
    Dict.get only_ended
update_task_readiness-ready_example =
    update_task_readiness-ready json registry load_waiting waiting (run, extract_ns ∷ [])
      (λ k. refl) refl (refl, tt) refl
