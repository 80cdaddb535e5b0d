-- ===== src/Dispatcher/Frame.antt =====
-- What a dispatch to a thread executor may write.
use cloacina.Common.{nat_eq, text_eq, refl, Text, Option, none, some, Result, ok, err}
use cloacina.Common.Dict
use cloacina.Router
use cloacina.Store.Monad.{Db}
use cloacina.Store.Keeps.{Order, Keeps, Keeps-pure, Keeps-bind, Keeps-attempt, Keeps-if}
use cloacina.Store.Tasks
use cloacina.Store.Frame.{
  Untouched, Untouched-Order, mark_completed-Untouched, mark_failed-Untouched,
  schedule_retry-Untouched,
}
use cloacina.Scheduler.State.{TaskReadyEvent}
use cloacina.Scheduler.Safety.{Confined}
use cloacina.Executor.Outcomes.{ExecutionResult, ExecutionStatus, DispatchError}
use cloacina.Executor.Threads.{ThreadTaskExecutor, Surroundings}
use cloacina.Executor.Writes.{Writes, execute-Keeps}
use cloacina.Dispatcher.{
  DefaultDispatcher, threads, settle, handle_result, after_execute, dispatch_to, dispatch_found,
  dispatch, as_dispatch,
}

module _ {R : Db → Db → Type 0} (o : Order R) (s : Surroundings) (event : TaskReadyEvent)
    (w : Writes o s event)
    (fails : (error : Text) → Keeps R (Tasks.mark_failed event.task_execution_id error)) where
  settle-Keeps :
      (error : Option Text) (status : ExecutionStatus)
      → Keeps R (settle event.task_execution_id error status)
  settle-Keeps error ExecutionStatus.completed = w.completes
  settle-Keeps error ExecutionStatus.failed = fails _
  settle-Keeps error ExecutionStatus.retry = Keeps-pure o tt

  after_execute-Keeps :
      (d : DefaultDispatcher ThreadTaskExecutor) (r : Result DispatchError ExecutionResult)
      → Keeps R (after_execute (threads s) s.describe event d r)
  unfolding after_execute handle_result
  after_execute-Keeps d (ok result) =
      Keeps-bind o (Keeps-attempt o (settle-Keeps result.error result.status)) (λ _. Keeps-pure o _)
  after_execute-Keeps d (err e) = Keeps-pure o _

  found-Keeps :
      (d : DefaultDispatcher ThreadTaskExecutor) (key : Text) (ex : Option ThreadTaskExecutor)
      → Keeps R (dispatch_found (threads s) s.describe d event key ex)
  unfolding dispatch_to
  found-Keeps d key none = Keeps-pure o _
  found-Keeps d key (some ex) =
      Keeps-if _
        (Keeps-bind o (Keeps-bind o (execute-Keeps o s event w ex) (λ _. Keeps-pure o _))
          (λ r. after_execute-Keeps _ _))
        (Keeps-pure o _)

  pub dispatch-Keeps :
      (d : DefaultDispatcher ThreadTaskExecutor) → Keeps R (dispatch (threads s) s.describe d event)
  unfolding dispatch
  dispatch-Keeps d =
      let key = Router.resolve d.router event.task_name in
      found-Keeps d key (Dict.get key d.executors)

-- The promise that the scheduling loop asks of a dispatcher, kept by the default dispatcher over
-- thread executors: whatever the tasks do, whichever calls to the database fail, a dispatch writes
-- no task row but that of the task it was handed.
pub dispatch-Confined :
    (s : Surroundings) (d : DefaultDispatcher ThreadTaskExecutor)
    → Confined (as_dispatch (threads s) s.describe d)
unfolding Untouched
dispatch-Confined s d ids event m =
    let o = Untouched-Order ids in
    let id = event.task_execution_id in
    Keeps-bind o
      (dispatch-Keeps o s event
        (record {
          context = λ f db. refl;
          output = λ f db. refl;
          completes = mark_completed-Untouched ids id m;
          retries = λ task error again at. schedule_retry-Untouched ids id m at _;
        })
        (mark_failed-Untouched ids id m) d)
      (λ _. Keeps-pure o tt)
