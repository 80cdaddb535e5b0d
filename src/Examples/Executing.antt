-- ===== src/Examples/Executing.antt =====
-- The executor, the dispatcher and the retry policy at concrete inputs.
use cloacina.Common.{
  ◌+◌, ◌*◌, ◌≤◌, ◌<◌, ◌≡◌, refl, true, false, [], ◌∷◌, some, codes, ok, arith, text_eq, text_beq,
  nat_eq,
}
use cloacina.Common.Dict
use cloacina.Router
use cloacina.Store.Rows.{TaskExecution, TaskExecutionMetadata, Status}
use cloacina.Store.Monad.{Db, BackendType}
use cloacina.Store.Keeps.{Keeps}
use cloacina.Store.Frame.{Untouched}
use cloacina.Store.Metadata.{upsert_task_execution_metadata}
use cloacina.Store.Upserts.{Outcome, upsert_lem}
use cloacina.Retry.{calculate_delay}
use cloacina.Retry.Builder
use cloacina.Retry.Delays.{calculate_delay_bounds}
use cloacina.Scheduler.State.{TaskReadyEvent}
use cloacina.Executor.Values.{Fields, number, array, nil, item, end, field, get_field, merge_fields}
use cloacina.Executor.Merging.{combine, merge_fields_lem}
use cloacina.Executor.Outcomes.{ExecutionResult}
use cloacina.Executor.Threads.{execute, has_capacity}
use cloacina.Executor.Counting.{counted, execute-answers}
use cloacina.Dispatcher.{threads, put, dispatch, as_dispatch}
use cloacina.Dispatcher.Scheduling.{settled}
use cloacina.Dispatcher.Settling.{dispatch-settles}
use cloacina.Dispatcher.Frame.{dispatch-Confined}
use cloacina.Examples.Samples.{row, database, extract_done}
use cloacina.Examples.Surroundings.{
  quarters, quarters_laws, twice_policy, surroundings, idle, dispatcher,
}

calculate_delay_bounds_example :
    (calculate_delay quarters (Builder.with_jitter false twice_policy) 1 5 ≤ 9000000)
    × (4 * calculate_delay quarters twice_policy 1 5
        ≤ 5 * calculate_delay quarters (Builder.with_jitter false twice_policy) 1 5)
    × (3 * calculate_delay quarters (Builder.with_jitter false twice_policy) 1 5
        < 4 * calculate_delay quarters twice_policy 1 5 + 6000000)
calculate_delay_bounds_example =
    calculate_delay_bounds quarters quarters_laws 5 (omega arith) (omega arith) twice_policy 1
      (omega arith)

abbrev counts : Fields
counts = field (codes "rows") (number 3) (field (codes "seen") (array (item (number 1) nil)) end)

abbrev more : Fields
more = field (codes "seen") (array (item (number 2) nil)) end

merge_fields_lem_example :
    get_field (codes "seen") (merge_fields counts more)
    ≡ combine (get_field (codes "seen") counts) (get_field (codes "seen") more)
unfolding get_field
merge_fields_lem_example = merge_fields_lem more counts (refl, tt) (codes "seen")

abbrev load_ready : TaskExecution
load_ready = row 2 (codes "public::embedded::etl::load") Status.ready 0

abbrev event : TaskReadyEvent
event = record {
  task_execution_id = 2;
  pipeline_execution_id = 7;
  task_name = codes "public::embedded::etl::load";
  attempt = 1;
}

abbrev db : Db
db = database BackendType.sqlite (extract_done ∷ load_ready ∷ [])

execute-answers_example :
    (result : ExecutionResult) × ((execute surroundings idle event db).0
      ≡ ok (result, counted result.status idle))
    × (result.task_execution_id ≡ 2)
execute-answers_example = execute-answers surroundings idle event (omega arith) db

dispatch-settles_example :
    (result : ExecutionResult) × ((execute surroundings idle event db).0
      ≡ ok (result, counted result.status idle))
    × ((dispatch (threads surroundings) surroundings.describe dispatcher event db).0
        ≡ ok (ok tt, put (codes "default") (counted result.status idle) dispatcher))
    × (settled event result
          (dispatch (threads surroundings) surroundings.describe dispatcher event db).1.tasks
        ≡ true)
unfolding Router.resolve Router.resolve_in Dict.get text_beq has_capacity
dispatch-settles_example =
    dispatch-settles surroundings dispatcher event idle db (λ k. refl) refl refl (omega arith)

dispatch-Confined_example :
    Keeps
      (Untouched (2 ∷ []))
      (as_dispatch (threads surroundings) surroundings.describe dispatcher event)
dispatch-Confined_example = dispatch-Confined surroundings dispatcher (2 ∷ []) event refl

abbrev output : TaskExecutionMetadata
output = record {
  task_execution_id = 2;
  pipeline_execution_id = 7;
  task_name = codes "public::embedded::etl::load";
  context_id = some 11;
}

upsert_lem_example : Outcome output db (upsert_task_execution_metadata output db)
upsert_lem_example = upsert_lem output db
