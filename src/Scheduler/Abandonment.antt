-- ===== src/Scheduler/Abandonment.antt =====
-- Recovery on a database that answers: what becomes of a task that a crash left running.
use cloacina.Common.{
  ℕ, suc, ◌≡◌, ◌≤◌, refl, List, [], ◌∷◌, ◌++◌, Bool, true, false, not, ◌||◌, ◌&&◌, all, any, length,
  filter, ok, arith, ◌==◌, nat_eq, Bool-cases, inl, inr, Option, none, some, Text, codes, leb, ltb,
}
use cloacina.Common.Dict.{is_some}
use cloacina.Store.Rows.{
  TaskExecution, PipelineExecution, PipelineStatus, Status, status_eq, task_abandoned,
}
use cloacina.Store.Monad.{Db, connect, gets, modify, pure, ◌>>=◌, ◌>>◌}
use cloacina.Store.Tasks.{update_where, set_abandoned, mark_abandoned}
use cloacina.Store.Queries.{of_pipeline, starts_with, is_abandoned, check_pipeline_failure}
use cloacina.Store.Pipelines
use cloacina.Store.Pipelines.{find_pipeline, update_pipeline_where}
use cloacina.Scheduler.Recovery.{
  abandoned, max_recovery_attempts, fail_pipeline, record_recovery_event, abandon_task_permanently,
  recover_single_task, event,
}

-- No call to the database fails.
abbrev pub Reliable : Db → Type 0
Reliable db = (k : ℕ) → db.world.fault k ≡ false

-- A row that an abandonment marks: failed, with a text that begins with the prefix.
unfoldable marked : ℕ → TaskExecution → Bool
marked i t = of_pipeline i t && t.status == Status.failed && is_abandoned t.error_details

prefixed : (reason : Text) → starts_with (codes "ABANDONED:") (codes "ABANDONED: " ++ reason) ≡ true
unfolding starts_with
prefixed reason = refl

abandoned-marked :
    (i id at : ℕ) (reason : Text) (rows : List TaskExecution)
    → any (λ t. t.id == id && of_pipeline i t) rows ≡ true
    → ltb 0 (length (filter (marked i) (update_where id (set_abandoned reason at) rows))) ≡ true
unfolding update_where set_abandoned marked
abandoned-marked i id at reason [] h = cc
abandoned-marked i id at reason (t ∷ rows) h =
    ground (arith, prefixed reason, abandoned-marked i id at reason rows)

unfoldable pub failed_pipeline : Option PipelineExecution → Bool
failed_pipeline none = false
failed_pipeline (some p) = elim p.status [ PipelineStatus.failed ↦ true | _ ↦ false ]

-- The database after an abandonment that fails its pipeline.
abbrev after_abandonment : TaskExecution → Db → Db
after_abandonment task db = record db {
  tasks =
      update_where task.id
        (set_abandoned (codes "Exceeded recovery attempts") (db.world.clock (suc db.calls)))
        db.tasks;
  pipelines =
      update_pipeline_where task.pipeline_execution_id
        (Pipelines.set_failed (codes "Task abandonment caused pipeline failure")
          (db.world.clock (suc (suc (suc db.calls)))))
        db.pipelines;
  recovery_events =
      db.recovery_events ++ event task.pipeline_execution_id (some task.id) task_abandoned ∷ [];
  calls = suc (suc (suc (suc db.calls)));
}

abandon_task-run :
    (task : TaskExecution) (db : Db)
    → Reliable db
    → any (λ t. t.id == task.id && of_pipeline task.pipeline_execution_id t) db.tasks ≡ true
    → abandon_task_permanently task db ≡ (ok tt, after_abandonment task db)
unfolding abandon_task_permanently mark_abandoned check_pipeline_failure fail_pipeline
    Pipelines.mark_failed record_recovery_event connect gets modify pure ◌>>=◌ ◌>>◌ marked
abandon_task-run task db up h =
    rw
      (
        up db.calls,
        up (suc db.calls),
        abandoned-marked task.pipeline_execution_id task.id (db.world.clock (suc db.calls))
            (codes "Exceeded recovery attempts") db.tasks h,
        up (suc (suc db.calls)),
        up (suc (suc (suc db.calls))),
      )
      refl

find-update_pipeline :
    (i : ℕ) (reason : Text) (at : ℕ) (ps : List PipelineExecution)
    → is_some (find_pipeline i ps) ≡ true
    → failed_pipeline
        (find_pipeline i (update_pipeline_where i (Pipelines.set_failed reason at) ps))
      ≡ true
unfolding find_pipeline update_pipeline_where failed_pipeline
find-update_pipeline i reason at [] h = cc
find-update_pipeline i reason at (p ∷ ps) h = elim (Bool-cases (p.id == i)) [
  | inl here ↦ rw (here, here) refl
  | inr there ↦ rw (there, there) (find-update_pipeline i reason at ps (ground arith))
]

-- The rows of a task are failed.
unfoldable pub task_failed_in : ℕ → List TaskExecution → Bool
task_failed_in id rows = all (λ t. not (t.id == id) || t.status == Status.failed) rows

abandoned-failed :
    (id at : ℕ) (reason : Text) (rows : List TaskExecution)
    → task_failed_in id (update_where id (set_abandoned reason at) rows) ≡ true
unfolding update_where set_abandoned task_failed_in
abandoned-failed id at reason [] = refl
abandoned-failed id at reason (t ∷ rows) = ground (arith, abandoned-failed id at reason rows)

-- On a database that answers, a task that was recovered three times or more already is given up:
-- its row ends failed, its pipeline ends failed as well, since the text that the abandonment
-- writes is the one that the check of the pipeline looks for, and one event says so. The task and
-- its pipeline are rows of their tables.
pub recover_single_task-abandons :
    (task : TaskExecution) (db : Db)
    → Reliable db
    → any (λ t. t.id == task.id && of_pipeline task.pipeline_execution_id t) db.tasks ≡ true
    → is_some (find_pipeline task.pipeline_execution_id db.pipelines) ≡ true
    → 3 ≤ task.recovery_attempts
    → ((recover_single_task task db).0 ≡ ok abandoned)
      × (task_failed_in task.id (recover_single_task task db).1.tasks ≡ true)
      × (failed_pipeline
            (find_pipeline task.pipeline_execution_id (recover_single_task task db).1.pipelines)
          ≡ true)
      × ((recover_single_task task db).1.recovery_events
          ≡ db.recovery_events
            ++ event task.pipeline_execution_id (some task.id) task_abandoned ∷ [])
unfolding recover_single_task ◌>>=◌ pure
recover_single_task-abandons task db up row pipeline many =
    rw (leb-true many, abandon_task-run task db up row)
      (
        refl,
        abandoned-failed task.id _ _ db.tasks,
        find-update_pipeline task.pipeline_execution_id _ _ db.pipelines pipeline,
        refl,
      )
  where
    leb-true : 3 ≤ task.recovery_attempts → leb max_recovery_attempts task.recovery_attempts ≡ true
    leb-true h = ground arith
