-- ===== src/Store/CronExecutions.antt =====
-- crates/cloacina/src/dal/unified/cron_execution: the audit records of scheduled executions.
use cloacina.Common.{
  ℕ, ◌+◌, ◌*◌, Bool, false, ◌&&◌, ◌||◌, not, List, [], ◌∷◌, ◌++◌, Option, none, some, ◌==◌, nat_eq,
  leb, ltb, filter, length, any, if◌then◌else◌,
}
use cloacina.Common.Dict.{is_some}
use cloacina.Common.Floats.{Float}
use cloacina.Common.Tables.{update_by, find_by, sort_by, take, drop}
use cloacina.Store.CronRows.{CronExecution}
use cloacina.Store.CronSchedules.{has_id}
use cloacina.Store.Rows.{PipelineExecution}
use cloacina.Store.Monad.{
  M, ◌>>=◌, ◌>>◌, Db, connect, statement, write_if, now, new_v4, gets, modify, pure,
}
use cloacina.Store.Queries.{found}

abbrev pub new_execution : ℕ → ℕ → ℕ → ℕ → CronExecution
new_execution id schedule_id scheduled_time at = record {
  id = id;
  schedule_id = schedule_id;
  pipeline_execution_id = none;
  scheduled_time = scheduled_time;
  claimed_at = at;
  created_at = at;
  updated_at = at;
}

-- `UNIQUE(schedule_id, scheduled_time)`, and the foreign key of the schedule.
abbrev pub is_at : ℕ → ℕ → CronExecution → Bool
is_at schedule_id scheduled_time e =
    e.schedule_id == schedule_id && e.scheduled_time == scheduled_time

abbrev pub insert_allowed : ℕ → ℕ → Db → Bool
insert_allowed schedule_id scheduled_time db =
    not (any (is_at schedule_id scheduled_time) db.cron_executions)
    && any (has_id schedule_id) db.schedules

-- `NewCronExecution::new` names no pipeline. The row is read again by a statement of its own.
unfoldable pub create : ℕ → ℕ → M CronExecution
create schedule_id scheduled_time = do
  connect
  id ← new_v4
  at ← now
  statement
  write_if (insert_allowed schedule_id scheduled_time) (λ db. record db {
    cron_executions = db.cron_executions ++ new_execution id schedule_id scheduled_time at ∷ [];
  })
  statement
  row ← gets (λ db. find_by (λ e. e.id == id) db.cron_executions)
  found row

-- The foreign key of the pipeline, if there is a row to update.
abbrev update_allowed : ℕ → ℕ → Db → Bool
update_allowed id pipeline_execution_id db =
    not (any (λ e. e.id == id) db.cron_executions)
    || any (λ p. p.id == pipeline_execution_id) db.pipelines

unfoldable pub update_pipeline_execution_id : ℕ → ℕ → M (Unit {0})
update_pipeline_execution_id id pipeline_execution_id = do
  connect
  at ← now
  write_if (update_allowed id pipeline_execution_id) (λ db. record db {
    cron_executions =
        update_by (λ e. e.id == id)
          (λ e. record e { pipeline_execution_id = some pipeline_execution_id; updated_at = at })
          db.cron_executions;
  })

unfoldable pub get_by_id : ℕ → M CronExecution
get_by_id id = do
  connect
  row ← gets (λ db. find_by (λ e. e.id == id) db.cron_executions)
  found row

abbrev latest_first : CronExecution → CronExecution → Bool
latest_first e f = leb f.scheduled_time e.scheduled_time

unfoldable pub get_by_schedule_id : ℕ → ℕ → ℕ → M (List CronExecution)
get_by_schedule_id schedule_id limit offset = do
  connect
  gets (λ db. take limit (
      drop offset
        (sort_by latest_first (filter (λ e. e.schedule_id == schedule_id) db.cron_executions))))

abbrev is_for : ℕ → CronExecution → Bool
is_for pipeline_execution_id e = elim e.pipeline_execution_id [
  | none ↦ false
  | some i ↦ i == pipeline_execution_id
]

unfoldable pub get_by_pipeline_execution_id : ℕ → M (Option CronExecution)
get_by_pipeline_execution_id pipeline_execution_id = do
  connect
  gets (λ db. find_by (is_for pipeline_execution_id) db.cron_executions)

unfoldable pub get_by_time_range : ℕ → ℕ → ℕ → ℕ → M (List CronExecution)
get_by_time_range start end limit offset = do
  connect
  gets (λ db. take limit (
      drop offset (
        sort_by latest_first (
          filter (λ e. leb start e.scheduled_time && ltb e.scheduled_time end)
            db.cron_executions))))

abbrev head : List CronExecution → Option CronExecution
head [] = none
head (e ∷ es) = some e

unfoldable pub get_latest_by_schedule : ℕ → M (Option CronExecution)
get_latest_by_schedule schedule_id = do
  connect
  gets (λ db.
      head (sort_by latest_first (filter (λ e. e.schedule_id == schedule_id) db.cron_executions)))

-- The left join finds no pipeline.
abbrev pub has_pipeline : List PipelineExecution → CronExecution → Bool
has_pipeline pipelines e = elim e.pipeline_execution_id [
  | none ↦ false
  | some i ↦ any (λ p. p.id == i) pipelines
]

abbrev pub minutes : ℕ → ℕ
minutes n = n * 60000000000

unfoldable pub find_lost_executions : ℕ → M (List CronExecution)
find_lost_executions older_than_minutes = do
  connect
  at ← now
  gets (λ db.
      filter
        (λ e.
          not (has_pipeline db.pipelines e) && ltb (e.claimed_at + minutes older_than_minutes) at)
        db.cron_executions)

unfoldable pub count_by_schedule : ℕ → M ℕ
count_by_schedule schedule_id = do
  connect
  gets (λ db. length (filter (λ e. e.schedule_id == schedule_id) db.cron_executions))

unfoldable pub execution_exists : ℕ → ℕ → M Bool
execution_exists schedule_id scheduled_time = do
  connect
  count ← gets (λ db. length (
      filter (λ e. e.schedule_id == schedule_id && e.scheduled_time == scheduled_time)
        db.cron_executions))
  pure (ltb 0 count)

unfoldable pub delete_older_than : ℕ → M ℕ
delete_older_than older_than = do
  connect
  deleted_count ←
      gets (λ db. length (filter (λ e. ltb e.scheduled_time older_than) db.cron_executions))
  modify (λ db. record db {
    cron_executions = filter (λ e. not (ltb e.scheduled_time older_than)) db.cron_executions;
  })
  pure deleted_count

pub record CronExecutionStats (F64 : Type 0) : Type 0 where
  pub total_executions : ℕ
  pub successful_executions : ℕ
  pub lost_executions : ℕ
  pub success_rate : F64

abbrev count_of : (CronExecution → Bool) → M ℕ
count_of p = gets (λ db. length (filter p db.cron_executions))

-- Lost is what was claimed ten minutes ago or more and has no pipeline.
unfoldable pub get_execution_stats : (float : Float) → ℕ → M (CronExecutionStats float.F64)
get_execution_stats float since = do
  connect
  at ← now
  total ← count_of (λ e. leb since e.claimed_at)
  successful ← count_of (λ e. leb since e.claimed_at && is_some e.pipeline_execution_id)
  lost ← gets (λ db. length (
      filter
        (λ e.
          not (has_pipeline db.pipelines e)
          && leb since e.claimed_at
          && ltb (e.claimed_at + minutes 10) at)
        db.cron_executions))
  pure (record {
    total_executions = total;
    successful_executions = successful;
    lost_executions = lost;
    success_rate =
        if ltb 0 total
        then float.times (float.divided_by (float.of_nat successful) (float.of_nat total))
            (float.of_nat 100)
        else float.of_nat 0;
  })
