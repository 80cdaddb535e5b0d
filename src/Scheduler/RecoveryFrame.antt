-- ===== src/Scheduler/RecoveryFrame.antt =====
-- What the recovery of orphaned tasks may write.
use cloacina.Common.{
  ℕ, ◌≡◌, refl, subst, List, [], ◌∷◌, Bool, true, false, filter, map, mem, All, All-map, All-append,
  ok, arith, ◌==◌, nat_eq, Option, none, some,
}
use cloacina.Common.Dict
use cloacina.Common.Dict.{is_some}
use cloacina.Store.Rows.{TaskExecution, PipelineExecution, NewRecoveryEvent, Status, status_eq}
use cloacina.Store.Monad.{Db, connect, modify}
use cloacina.Store.Keeps.{
  Order, Keeps, Keeps-then, Keeps-bind, Keeps-connect, Keeps-pure, Keeps-if, Keeps-attempt, bind_at,
}
use cloacina.Store.Runs.{>>=-ok, >>-ok, gets-ok, pure-ok}
use cloacina.Store.Frame.{
  others, Untouched, Untouched-Order, SameTasks, SameTasks-Order, SameTasks-Untouched,
  mark_abandoned-Untouched, reset_task-Untouched,
}
use cloacina.Store.PipelineFrame.{mark_failed-SameTasks}
use cloacina.Store.Queries.{get_orphaned_tasks}
use cloacina.Store.Pipelines
use cloacina.Scheduler.Contexts.{Registry}
use cloacina.Scheduler.Reads.{
  check_pipeline_failure-Keeps, get_orphaned_tasks-Keeps, get_by_id-Keeps,
}
use cloacina.Scheduler.Recovery.{
  Groups, push_task, abandoned, fail_pipeline, record_recovery_event, abandon_task_permanently,
  recover_single_task, recover_tasks, recover_tasks_for_known_workflow, abandon_all,
  abandon_tasks_for_unknown_workflow, group_by_pipeline, recover_group, recover_groups,
  recover_orphaned_tasks,
}

event-SameTasks : (e : NewRecoveryEvent) → Keeps SameTasks (record_recovery_event e)
unfolding record_recovery_event SameTasks modify
event-SameTasks e =
    let o = SameTasks-Order in Keeps-then o (Keeps-connect o) (record { at = λ db. refl })

module _ (ids : List ℕ) where
  abbrev o : Order (Untouched ids)
  o = Untouched-Order ids

  event-Untouched : (e : NewRecoveryEvent) → Keeps (Untouched ids) (record_recovery_event e)
  event-Untouched e = SameTasks-Untouched ids (event-SameTasks e)

  fail-Untouched : (task : TaskExecution) (b : Bool) → Keeps (Untouched ids) (fail_pipeline task b)
  unfolding fail_pipeline
  fail-Untouched task false = Keeps-pure o tt
  fail-Untouched task true = SameTasks-Untouched ids (mark_failed-SameTasks _ _)

  recover_single-Untouched :
      (task : TaskExecution)
      → mem task.id ids ≡ true
      → Keeps (Untouched ids) (recover_single_task task)
  unfolding recover_single_task abandon_task_permanently
  recover_single-Untouched task m =
      Keeps-if _
        (Keeps-bind o
          (Keeps-then o (mark_abandoned-Untouched ids task.id m _) (
            Keeps-bind o (check_pipeline_failure-Keeps o _)
              (λ b. Keeps-then o (fail-Untouched task b) (event-Untouched _))))
          (λ _. Keeps-pure o abandoned))
        (Keeps-then o (reset_task-Untouched ids task.id m)
          (Keeps-then o (event-Untouched _) (Keeps-pure o _)))

  recover_tasks-Untouched :
      (tasks : List TaskExecution) (n : ℕ)
      → All (λ t. mem t.id ids ≡ true) tasks
      → Keeps (Untouched ids) (recover_tasks tasks n)
  unfolding recover_tasks
  recover_tasks-Untouched [] n h = Keeps-pure o n
  recover_tasks-Untouched (t ∷ ts) n h =
      Keeps-bind o (Keeps-attempt o (recover_single-Untouched t h.0))
        (λ r. recover_tasks-Untouched ts _ h.1)

  abandon_all-Untouched :
      (pipeline : PipelineExecution) (tasks : List TaskExecution)
      → All (λ t. mem t.id ids ≡ true) tasks
      → Keeps (Untouched ids) (abandon_all pipeline tasks)
  unfolding abandon_all
  abandon_all-Untouched pipeline [] h = Keeps-pure o tt
  abandon_all-Untouched pipeline (t ∷ ts) h =
      Keeps-then o (mark_abandoned-Untouched ids t.id h.0 _)
        (Keeps-then o (event-Untouched _) (abandon_all-Untouched pipeline ts h.1))

  module _ (registry : Registry) where
    recover_group-Untouched :
        (pipeline : PipelineExecution) (tasks : List TaskExecution)
        → All (λ t. mem t.id ids ≡ true) tasks
        → Keeps (Untouched ids) (recover_group registry pipeline tasks)
    unfolding recover_group recover_tasks_for_known_workflow abandon_tasks_for_unknown_workflow
    recover_group-Untouched pipeline tasks h = Keeps-if _ (recover_tasks-Untouched tasks 0 h) (
        Keeps-then o (abandon_all-Untouched pipeline tasks h) (
          Keeps-then o (SameTasks-Untouched ids (mark_failed-SameTasks _ _))
            (Keeps-then o (event-Untouched _) (Keeps-pure o _))))

    recover_groups-Untouched :
        (groups : Groups)
        → All (λ g. All (λ t. mem t.id ids ≡ true) g.1.1) groups
        → Keeps (Untouched ids) (recover_groups registry groups)
    unfolding recover_groups
    recover_groups-Untouched [] h = Keeps-pure o tt
    recover_groups-Untouched ((i, (pipeline, tasks)) ∷ groups) h =
        Keeps-then o
          (Keeps-bind o (Keeps-attempt o (recover_group-Untouched pipeline tasks h.0))
            (λ _. Keeps-pure o tt))
          (recover_groups-Untouched groups h.1)

-- What holds of each orphaned task holds of the tasks of each group.
module _ (Q : TaskExecution → Type 0) where
  abbrev Grouped : Groups → Type 0
  Grouped groups = All (λ g. All Q g.1.1) groups

  group-Grouped :
      (task : TaskExecution) (p : PipelineExecution) (i : ℕ) (groups : Groups)
      → Q task
      → Grouped groups
      → Grouped (Dict.insert i (push_task p task (Dict.get i groups)) groups)
  group-Grouped task p i groups q h =
      Dict.All-insert (λ g. All Q g.1.1) i _ groups (pushed (Dict.get i groups) refl) h
    where
      pushed :
          (o : Option (PipelineExecution × List TaskExecution))
          → Dict.get i groups ≡ o
          → All Q (push_task p task o).1
      pushed none e = (q, tt)
      pushed (some (r, tasks)) e =
          All-append Q tasks (task ∷ []) (Dict.get-All (λ g. All Q g.1.1) i groups h e) (q, tt)

  group_by_pipeline-Grouped :
      (ts : List TaskExecution) (groups : Groups) (db : Db) {gs : Groups}
      → All Q ts
      → Grouped groups
      → (group_by_pipeline ts groups db).0 ≡ ok gs
      → Grouped gs
  unfolding group_by_pipeline
  group_by_pipeline-Grouped [] groups db q h e = subst Grouped (pure-ok groups db e) h
  group_by_pipeline-Grouped (t ∷ ts) groups db q h e =
      let r = >>=-ok (Pipelines.get_by_id t.pipeline_execution_id) _ db e in
      group_by_pipeline-Grouped ts _ _ q.1 (group-Grouped t r.0 r.0.id groups q.0 h) r.2

-- The tasks that are running.
abbrev pub running_ids : List TaskExecution → List ℕ
running_ids rows = map (λ t. t.id) (filter (λ t. t.status == Status.running) rows)

ids-All : (ts : List TaskExecution) → All (λ t. mem t.id (map (λ t. t.id) ts) ≡ true) ts
ids-All [] = tt
ids-All (t ∷ ts) = (ground arith, All-map ts (λ u h. ground (arith, h)) (ids-All ts))

orphaned-All :
    (db : Db) {ts : List TaskExecution}
    → (get_orphaned_tasks db).0 ≡ ok ts
    → All (λ t. mem t.id (running_ids db.tasks) ≡ true) ts
unfolding get_orphaned_tasks connect
orphaned-All db e =
    subst (All (λ t. mem t.id (running_ids db.tasks) ≡ true)) (gets-ok _ _ (>>-ok connect _ db e))
      (ids-All _)

group_by_pipeline-SameTasks :
    (ts : List TaskExecution) (groups : Groups) → Keeps SameTasks (group_by_pipeline ts groups)
unfolding group_by_pipeline
group_by_pipeline-SameTasks [] groups = Keeps-pure SameTasks-Order groups
group_by_pipeline-SameTasks (t ∷ ts) groups =
    Keeps-bind SameTasks-Order (get_by_id-Keeps SameTasks-Order _)
      (λ p. group_by_pipeline-SameTasks ts _)

-- The recovery at startup, whatever workflows are registered and whichever calls to the database
-- fail, writes no row of a task that was not running: tasks that wait, that are ready for a retry
-- and that have ended stay as they are.
pub recover_orphaned_tasks-frame :
    (registry : Registry) (db : Db)
    → others (running_ids db.tasks) (recover_orphaned_tasks registry db).1.tasks
      ≡ others (running_ids db.tasks) db.tasks
unfolding recover_orphaned_tasks Untouched
recover_orphaned_tasks-frame registry db =
    let ids = running_ids db.tasks in
    bind_at (Untouched-Order ids) get_orphaned_tasks _ db
      ((get_orphaned_tasks-Keeps (Untouched-Order ids)).at db)
      (λ ts e.
        bind_at (Untouched-Order ids) (group_by_pipeline ts []) _ _
          ((SameTasks-Untouched ids (group_by_pipeline-SameTasks ts [])).at _)
          (λ gs g.
            (recover_groups-Untouched ids registry gs (
                group_by_pipeline-Grouped (λ t. mem t.id ids ≡ true) ts [] _ (orphaned-All db e) tt
                  g)).at
              _))
