-- ===== src/Store/Queries.antt =====
-- crates/cloacina/src/dal/unified/task_execution/queries.rs, recovery.rs and crud.rs: the reads.
-- A query without ORDER BY answers in the order of the table.
use cloacina.Common.{
  ℕ, ◌+◌, ◌-◌, Bool, true, false, ◌&&◌, ◌||◌, not, List, [], ◌∷◌, Option, none, some, Text, codes,
  ◌==◌, nat_eq, text_eq, if◌then◌else◌, filter, length, mem, ltb, leb,
}
use cloacina.Common.Dict
use cloacina.Common.Dict.{HashMap}
use cloacina.Store.Rows.{TaskExecution, Status, status_eq}
use cloacina.Store.Monad.{M, ◌>>=◌, ◌>>◌, connect, gets, pure, throw, database_not_found}

abbrev pub of_pipeline : ℕ → TaskExecution → Bool
of_pipeline pipeline_execution_id t = t.pipeline_execution_id == pipeline_execution_id

unfoldable pub get_pending_tasks : ℕ → M (List TaskExecution)
get_pending_tasks pipeline_execution_id = do
  connect
  gets (λ db.
      filter (λ t. of_pipeline pipeline_execution_id t && (t.status == Status.not_started))
        db.tasks)

-- `eq_any(["NotStarted", "Pending"])`
abbrev pub is_pending : Status → Bool
is_pending s = s == Status.not_started || s == Status.pending

unfoldable pub get_pending_tasks_batch : List ℕ → M (List TaskExecution)
get_pending_tasks_batch [] = pure []
get_pending_tasks_batch (i ∷ is) = do
  connect
  gets (λ db. filter (λ t. mem t.pipeline_execution_id (i ∷ is) && is_pending t.status) db.tasks)

-- `matches!(status, "Completed" | "Failed" | "Skipped")`, and the list of `ne_all`.
abbrev pub is_terminal : Status → Bool
is_terminal s = s == Status.completed || s == Status.failed || s == Status.skipped

unfoldable pub incomplete : ℕ → List TaskExecution → List TaskExecution
incomplete pipeline_execution_id =
    filter (λ t. of_pipeline pipeline_execution_id t && not (is_terminal t.status))

unfoldable pub check_pipeline_completion : ℕ → M Bool
check_pipeline_completion pipeline_execution_id = do
  connect
  count ← gets (λ db. length (incomplete pipeline_execution_id db.tasks))
  pure (count == 0)

-- `first`: a query that finds no row is an error.
unfoldable pub find_status : ℕ → Text → List TaskExecution → Option Status
find_status pipeline_execution_id task_name [] = none
find_status pipeline_execution_id task_name (t ∷ ts) =
    if of_pipeline pipeline_execution_id t && t.task_name == task_name
    then some t.status
    else find_status pipeline_execution_id task_name ts

unfoldable pub found : {A : Type 0} → Option A → M A
found none = throw database_not_found
found (some a) = pure a

unfoldable pub find_task : ℕ → List TaskExecution → Option TaskExecution
find_task task_id [] = none
find_task task_id (t ∷ ts) = if t.id == task_id then some t else find_task task_id ts

unfoldable pub get_by_id : ℕ → M TaskExecution
get_by_id task_id = do connect; row ← gets (λ db. find_task task_id db.tasks); found row

unfoldable pub get_task_status : ℕ → Text → M Status
get_task_status pipeline_execution_id task_name = do
  connect
  row ← gets (λ db. find_status pipeline_execution_id task_name db.tasks)
  found row

-- `collect` into a `HashMap`: the last row of a name wins.
unfoldable pub collect_statuses : List TaskExecution → HashMap Text Status → HashMap Text Status
collect_statuses [] m = m
collect_statuses (t ∷ ts) m = collect_statuses ts (Dict.insert t.task_name t.status m)

unfoldable pub get_task_statuses_batch : ℕ → List Text → M (HashMap Text Status)
get_task_statuses_batch pipeline_execution_id [] = pure []
get_task_statuses_batch pipeline_execution_id (n ∷ ns) = do
  connect
  gets (λ db.
      collect_statuses
        (filter (λ t. of_pipeline pipeline_execution_id t && mem t.task_name (n ∷ ns)) db.tasks) [])

unfoldable pub get_all_tasks_for_pipeline : ℕ → M (List TaskExecution)
get_all_tasks_for_pipeline pipeline_execution_id = do
  connect
  gets (λ db. filter (of_pipeline pipeline_execution_id) db.tasks)

unfoldable pub get_orphaned_tasks : M (List TaskExecution)
get_orphaned_tasks = do connect; gets (λ db. filter (λ t. t.status == Status.running) db.tasks)

-- `LIKE 'ABANDONED:%'`. SQLite would also accept the prefix in small letters, but the program writes
-- the details of a failed task in this one way only.
unfoldable pub starts_with : Text → Text → Bool
starts_with [] s = true
starts_with (c ∷ p) [] = false
starts_with (c ∷ p) (d ∷ s) = c == d && starts_with p s

abbrev pub is_abandoned : Option Text → Bool
is_abandoned none = false
is_abandoned (some details) = starts_with (codes "ABANDONED:") details

unfoldable pub check_pipeline_failure : ℕ → M Bool
check_pipeline_failure pipeline_execution_id = do
  connect
  count ← gets (λ db. length (
      filter
        (λ t.
          of_pipeline pipeline_execution_id t
          && t.status == Status.failed
          && is_abandoned t.error_details)
        db.tasks))
  pure (ltb 0 count)

pub record RetryStats : Type 0 where
  pub tasks_with_retries : ℕ
  pub total_retries : ℕ
  pub max_attempts_used : ℕ
  pub tasks_exhausted_retries : ℕ

-- The condition of `get_exhausted_retry_tasks`, which `get_retry_stats` repeats.
abbrev pub is_exhausted : TaskExecution → Bool
is_exhausted t = t.status == Status.failed && leb t.max_attempts t.attempt

abbrev pub count_task : RetryStats → TaskExecution → RetryStats
count_task stats t = record {
  tasks_with_retries =
      if ltb 1 t.attempt then stats.tasks_with_retries + 1 else stats.tasks_with_retries;
  total_retries =
      if ltb 1 t.attempt then stats.total_retries + (t.attempt - 1) else stats.total_retries;
  max_attempts_used =
      if ltb stats.max_attempts_used t.attempt then t.attempt else stats.max_attempts_used;
  tasks_exhausted_retries =
      if is_exhausted t then stats.tasks_exhausted_retries + 1 else stats.tasks_exhausted_retries;
}

unfoldable pub count_tasks : List TaskExecution → RetryStats → RetryStats
count_tasks [] stats = stats
count_tasks (t ∷ ts) stats = count_tasks ts (count_task stats t)

abbrev pub no_retries : RetryStats
no_retries = record {
  tasks_with_retries = 0;
  total_retries = 0;
  max_attempts_used = 0;
  tasks_exhausted_retries = 0;
}

unfoldable pub get_retry_stats : ℕ → M RetryStats
get_retry_stats pipeline_execution_id = do
  rows ← get_all_tasks_for_pipeline pipeline_execution_id
  pure (count_tasks rows no_retries)

unfoldable pub get_exhausted_retry_tasks : ℕ → M (List TaskExecution)
get_exhausted_retry_tasks pipeline_execution_id = do
  rows ← get_all_tasks_for_pipeline pipeline_execution_id
  pure (filter is_exhausted rows)
