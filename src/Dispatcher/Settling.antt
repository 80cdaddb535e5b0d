-- ===== src/Dispatcher/Settling.antt =====
-- What becomes of a dispatched task on a database that answers.
use cloacina.Common.{
  ◌<◌, ◌≡◌, refl, subst, ap, ◌∙◌, Bool, true, not, ◌||◌, List, all, some, Text, ok, ◌==◌, nat_eq,
  text_eq, ==_refl,
}
use cloacina.Common.Dict
use cloacina.Common.Dict.{is_some}
use cloacina.Router
use cloacina.Store.Rows.{TaskExecution, status_eq}
use cloacina.Store.Monad.{Db, pure, attempt_of, ◌>>=◌}
use cloacina.Store.Tasks
use cloacina.Store.Tasks.{update_where, set_completed, set_failed, set_retry, stamp}
use cloacina.Scheduler.Abandonment.{Reliable}
use cloacina.Scheduler.State.{TaskReadyEvent}
use cloacina.Executor.Outcomes.{ExecutionResult, ExecutionStatus}
use cloacina.Executor.Threads.{ThreadTaskExecutor, Surroundings, execute, has_capacity, word}
use cloacina.Executor.Counting.{counted, execute-answers}
use cloacina.Dispatcher.{
  DefaultDispatcher, or_unknown, threads, settle, handle_result, after_execute, put, dispatch_to,
  dispatch_found, dispatch,
}
use cloacina.Dispatcher.Scheduling.{
  Reliable-SameWorld, stamp-settles, settled_as, settled, Retried, execute-Schedules,
  execute-SameWorld,
}

settle-settles :
    (event : TaskReadyEvent) (result : ExecutionResult) (db : Db)
    → Reliable db
    → (result.status ≡ ExecutionStatus.retry → settled event result db.tasks ≡ true)
    → ((handle_result event result db).0 ≡ ok tt)
      × (settled event result (handle_result event result db).1.tasks ≡ true)
unfolding handle_result Tasks.mark_completed Tasks.mark_failed set_completed set_failed pure
settle-settles event result db up retried = go result.status retried
  where
    ends : ExecutionStatus → List TaskExecution → Bool
    ends status rows =
        all (λ t. not (t.id == event.task_execution_id) || settled_as event result.error status t)
          rows

    go :
        (status : ExecutionStatus)
        → (status ≡ ExecutionStatus.retry → ends status db.tasks ≡ true)
        → ((settle event.task_execution_id result.error status db).0 ≡ ok tt)
          × (ends status (settle event.task_execution_id result.error status db).1.tasks ≡ true)
    go ExecutionStatus.completed h =
        stamp-settles event.task_execution_id _ set_completed db up (λ at t. refl)
    go ExecutionStatus.failed h =
        stamp-settles event.task_execution_id _ (set_failed (or_unknown result.error)) db up
          (λ at t. ==_refl (or_unknown result.error))
    go ExecutionStatus.retry h = (refl, h refl)

module _ (s : Surroundings) (event : TaskReadyEvent) where
  dispatch_to-run :
      (d : DefaultDispatcher ThreadTaskExecutor) (key : Text) (ex ex' : ThreadTaskExecutor)
      (db : Db) (result : ExecutionResult)
      → has_capacity ex ≡ true
      → (execute s ex event db).0 ≡ ok (result, ex')
      → dispatch_to (threads s) s.describe d event key ex db
        ≡ after_execute
            (threads s)
            s.describe
            event
            (put key ex' d)
            (ok result)
            (execute s ex event db).1
  unfolding dispatch_to ◌>>=◌ pure
  dispatch_to-run d key ex ex' db result room e = rw (room, e) refl

  after_execute-run :
      (d : DefaultDispatcher ThreadTaskExecutor) (result : ExecutionResult) (db : Db)
      → (handle_result event result db).0 ≡ ok tt
      → after_execute (threads s) s.describe event d (ok result) db
        ≡ (ok (ok tt, d), (handle_result event result db).1)
  unfolding after_execute attempt_of ◌>>=◌ pure
  after_execute-run d result db e = rw e refl

-- On a database that answers, a dispatch to an executor with room brings the task to an end or to
-- its next attempt: the executor's result for it is stored, so that each of its rows is completed,
-- or failed with the text of the error, or ready with the next attempt and its time. The dispatch
-- answers no error, and the executor is put back with that result counted and with its count of
-- active tasks as it was. The router names an executor of the table, and the count of its active
-- tasks fits its word.
pub dispatch-settles :
    (s : Surroundings) (d : DefaultDispatcher ThreadTaskExecutor) (event : TaskReadyEvent)
    (ex : ThreadTaskExecutor) (db : Db)
    → Reliable db
    → Dict.get (Router.resolve d.router event.task_name) d.executors ≡ some ex
    → has_capacity ex ≡ true
    → ex.active_tasks < word
    → let key = Router.resolve d.router event.task_name in
      (result : ExecutionResult) × ((execute s ex event db).0
        ≡ ok (result, counted result.status ex))
      × ((dispatch (threads s) s.describe d event db).0
          ≡ ok (ok tt, put key (counted result.status ex) d))
      × (settled event result (dispatch (threads s) s.describe d event db).1.tasks ≡ true)
unfolding dispatch
dispatch-settles s d event ex db up found room fits =
    let key = Router.resolve d.router event.task_name in
    let (result, run, same) = execute-answers s ex event fits db in
    let d' = put key (counted result.status ex) d in
    let db' = (execute s ex event db).1 in
    let up' = Reliable-SameWorld db db' ((execute-SameWorld s event ex).at db) up in
    let retried = subst (λ r. Retried event r db') run (execute-Schedules s event ex db up) in
    let stored = settle-settles event result db' up' retried in
    let whole =
      ap (λ o. dispatch_found (threads s) s.describe d event key o db) found
      ∙ dispatch_to-run s event d key ex _ db result room run
      ∙ after_execute-run s event d' result db' stored.0 in
    (result, run, ap (λ r. r.0) whole, ap (λ r. settled event result r.1.tasks) whole ∙ stored.1)
