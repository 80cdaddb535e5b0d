-- ===== src/Examples/Recovering.antt =====
-- The recovery at startup: crates/cloacina/src/task_scheduler/recovery.rs.
use cloacina.Common.{◌≡◌, refl, codes, [], ◌∷◌, ◌++◌, some, ok, true, arith}
use cloacina.Store.Rows.{TaskExecution, Status, task_abandoned}
use cloacina.Store.Monad.{Db, BackendType}
use cloacina.Store.Frame.{others}
use cloacina.Store.Pipelines.{find_pipeline}
use cloacina.Scheduler.Recovery.{abandoned, event, recover_single_task, recover_orphaned_tasks}
use cloacina.Scheduler.Abandonment.{failed_pipeline, task_failed_in, recover_single_task-abandons}
use cloacina.Scheduler.RecoveryBound.{bounded, agrees, recover_single_task-bounded}
use cloacina.Scheduler.RecoveryFrame.{running_ids, recover_orphaned_tasks-frame}
use cloacina.Examples.Samples.{registry, row, database, extract_done}

abbrev lost : TaskExecution
lost = row 3 (codes "lost") Status.running 3

abbrev crashed : Db
crashed = database BackendType.sqlite (extract_done ∷ lost ∷ [])

recover_single_task-abandons_example :
    ((recover_single_task lost crashed).0 ≡ ok abandoned)
    × (task_failed_in 3 (recover_single_task lost crashed).1.tasks ≡ true)
    × (failed_pipeline (find_pipeline 7 (recover_single_task lost crashed).1.pipelines) ≡ true)
    × ((recover_single_task lost crashed).1.recovery_events
        ≡ [] ++ event 7 (some 3) task_abandoned ∷ [])
unfolding find_pipeline
recover_single_task-abandons_example =
    recover_single_task-abandons lost crashed (λ k. refl) refl refl (omega arith)

recover_single_task-bounded_example : bounded (recover_single_task lost crashed).1.tasks ≡ true
unfolding agrees bounded
recover_single_task-bounded_example = recover_single_task-bounded lost crashed refl refl

recover_orphaned_tasks-frame_example :
    others (running_ids crashed.tasks) (recover_orphaned_tasks registry crashed).1.tasks
    ≡ others (running_ids crashed.tasks) crashed.tasks
recover_orphaned_tasks-frame_example = recover_orphaned_tasks-frame registry crashed
