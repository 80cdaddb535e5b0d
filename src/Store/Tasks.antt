-- ===== src/Store/Tasks.antt =====
-- crates/cloacina/src/dal/unified/task_execution/state.rs, and the updates of claiming.rs,
-- recovery.rs and crud.rs. `update_where` is `UPDATE task_executions SET … WHERE id = …`.
use cloacina.Common.{
  ℕ, ◌+◌, List, [], ◌∷◌, ◌++◌, none, some, Text, codes, ◌==◌, nat_eq, if◌then◌else◌,
}
use cloacina.Store.Rows.{TaskExecution, NewTaskExecution, Status}
use cloacina.Store.Monad.{M, ◌>>=◌, ◌>>◌, connect, now, new_v4, modify, pure}

unfoldable pub update_where :
    ℕ → (TaskExecution → TaskExecution) → List TaskExecution → List TaskExecution
update_where id f [] = []
update_where id f (t ∷ ts) = (if t.id == id then f t else t) ∷ update_where id f ts

abbrev pub update_task : ℕ → (TaskExecution → TaskExecution) → M (Unit {0})
update_task id f = modify (λ db. record db { tasks = update_where id f db.tasks })

-- What each operation writes into the row at the time `at`.
unfoldable pub set_completed : ℕ → TaskExecution → TaskExecution
set_completed at t = record t { status = Status.completed; completed_at = some at; updated_at = at }

unfoldable pub set_failed : Text → ℕ → TaskExecution → TaskExecution
set_failed error_message at t = record t {
  status = Status.failed;
  completed_at = some at;
  last_error = some error_message;
  updated_at = at;
}

unfoldable pub set_ready : ℕ → TaskExecution → TaskExecution
set_ready at t = record t { status = Status.ready; updated_at = at }

unfoldable pub set_skipped : Text → ℕ → TaskExecution → TaskExecution
set_skipped reason at t = record t {
  status = Status.skipped;
  error_details = some reason;
  updated_at = at;
}

unfoldable pub set_abandoned : Text → ℕ → TaskExecution → TaskExecution
set_abandoned reason at t = record t {
  status = Status.failed;
  completed_at = some at;
  error_details = some (codes "ABANDONED: " ++ reason);
  updated_at = at;
}

unfoldable pub set_retry_state : ℕ → TaskExecution → TaskExecution
set_retry_state at t = record t {
  attempt = 1;
  retry_at = none;
  started_at = none;
  completed_at = none;
  last_error = none;
  status = Status.ready;
  updated_at = at;
}

unfoldable pub set_retry : ℕ → ℕ → ℕ → TaskExecution → TaskExecution
set_retry at_time new_attempt at t = record t {
  status = Status.ready;
  attempt = new_attempt;
  retry_at = some at_time;
  started_at = none;
  completed_at = none;
  updated_at = at;
}

unfoldable pub set_recovered : ℕ → TaskExecution → TaskExecution
set_recovered at t = record t {
  status = Status.ready;
  started_at = none;
  recovery_attempts = t.recovery_attempts + 1;
  last_recovery_at = some at;
  updated_at = at;
}

-- `connect`, read the clock, and run the statement.
abbrev pub stamp : ℕ → (ℕ → TaskExecution → TaskExecution) → M (Unit {0})
stamp task_id f = do connect; at ← now; update_task task_id (f at)

unfoldable pub mark_completed : ℕ → M (Unit {0})
mark_completed task_id = stamp task_id set_completed

unfoldable pub mark_failed : ℕ → Text → M (Unit {0})
mark_failed task_id error_message = stamp task_id (set_failed error_message)

unfoldable pub mark_ready : ℕ → M (Unit {0})
mark_ready task_id = stamp task_id set_ready

unfoldable pub mark_skipped : ℕ → Text → M (Unit {0})
mark_skipped task_id reason = stamp task_id (set_skipped reason)

unfoldable pub mark_abandoned : ℕ → Text → M (Unit {0})
mark_abandoned task_id reason = stamp task_id (set_abandoned reason)

unfoldable pub reset_retry_state : ℕ → M (Unit {0})
reset_retry_state task_id = stamp task_id set_retry_state

unfoldable pub schedule_retry : ℕ → ℕ → ℕ → M (Unit {0})
schedule_retry task_id retry_at new_attempt = stamp task_id (set_retry retry_at new_attempt)

unfoldable pub reset_task_for_recovery : ℕ → M (Unit {0})
reset_task_for_recovery task_id = stamp task_id set_recovered

-- The columns that an insert leaves out are null, or 0 for `recovery_attempts`.
unfoldable pub new_row : NewTaskExecution → ℕ → ℕ → TaskExecution
new_row new_task id at = record {
  id = id;
  pipeline_execution_id = new_task.pipeline_execution_id;
  task_name = new_task.task_name;
  status = new_task.status;
  started_at = none;
  completed_at = none;
  attempt = new_task.attempt;
  max_attempts = new_task.max_attempts;
  error_details = none;
  trigger_rules = new_task.trigger_rules;
  task_configuration = new_task.task_configuration;
  retry_at = none;
  last_error = none;
  recovery_attempts = 0;
  last_recovery_at = none;
  created_at = at;
  updated_at = at;
}

unfoldable pub create : NewTaskExecution → M TaskExecution
create new_task = do
  connect
  id ← new_v4
  at ← now
  let row = new_row new_task id at
  modify (λ db. record db { tasks = db.tasks ++ row ∷ [] })
  pure row
