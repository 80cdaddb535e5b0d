-- ===== src/Store/CronSchedules.antt =====
-- crates/cloacina/src/dal/unified/cron_schedule: the table of schedules. `find(id)` is a condition on
-- the primary key.
use cloacina.Common.{
  ℕ, Bool, true, false, ◌&&◌, List, [], ◌∷◌, ◌++◌, Option, none, some, Text, codes, ◌==◌, nat_eq,
  text_eq, leb, not, filter, length, if◌then◌else◌,
}
use cloacina.Common.Tables.{update_by, find_by, sort_by, take, drop}
use cloacina.Store.CronRows.{CronSchedule, NewCronSchedule}
use cloacina.Store.Monad.{M, ◌>>=◌, ◌>>◌, connect, now, new_v4, gets, modify, pure}
use cloacina.Store.Queries.{found}

abbrev pub has_id : ℕ → CronSchedule → Bool
has_id id schedule = schedule.id == id

abbrev update_where : (CronSchedule → Bool) → (CronSchedule → CronSchedule) → M (Unit {0})
update_where p f = modify (λ db. record db { schedules = update_by p f db.schedules })

-- `connect`, read the clock, and run the update on one schedule.
abbrev stamp_schedule : ℕ → (ℕ → CronSchedule → CronSchedule) → M (Unit {0})
stamp_schedule id f = do connect; at ← now; update_where (has_id id) (f at)

abbrev or_else {ℓ} : {A : Type ℓ} → A → Option A → A
or_else a none = a
or_else a (some b) = b

unfoldable pub new_schedule : NewCronSchedule → ℕ → ℕ → CronSchedule
new_schedule new id at = record {
  id = id;
  workflow_name = new.workflow_name;
  cron_expression = new.cron_expression;
  timezone = or_else (codes "UTC") new.timezone;
  enabled = or_else true new.enabled;
  catchup_policy = or_else (codes "skip") new.catchup_policy;
  start_date = new.start_date;
  end_date = new.end_date;
  next_run_at = new.next_run_at;
  last_run_at = none;
  created_at = at;
  updated_at = at;
}

unfoldable pub create : NewCronSchedule → M CronSchedule
create new = do
  connect
  id ← new_v4
  at ← now
  let row = new_schedule new id at
  modify (λ db. record db { schedules = db.schedules ++ row ∷ [] })
  pure row

unfoldable pub get_by_id : ℕ → M CronSchedule
get_by_id id = do connect; row ← gets (λ db. find_by (has_id id) db.schedules); found row

-- `ON DELETE CASCADE`: the audit records of the schedule go with it.
unfoldable pub delete : ℕ → M (Unit {0})
delete id = do
  connect
  modify (λ db. record db {
    schedules = filter (λ c. not (has_id id c)) db.schedules;
    cron_executions = filter (λ e. not (e.schedule_id == id)) db.cron_executions;
  })

abbrev none_or : (ℕ → Bool) → Option ℕ → Bool
none_or p none = true
none_or p (some t) = p t

-- Enabled, due, and inside the time window.
abbrev pub is_due : ℕ → CronSchedule → Bool
is_due now_ts c =
    c.enabled
    && leb c.next_run_at now_ts
    && none_or (λ t. leb t now_ts) c.start_date
    && none_or (λ t. leb now_ts t) c.end_date

abbrev by_next_run : CronSchedule → CronSchedule → Bool
by_next_run c d = leb c.next_run_at d.next_run_at

unfoldable pub get_due_schedules : ℕ → M (List CronSchedule)
get_due_schedules now_ts = do
  connect
  gets (λ db. sort_by by_next_run (filter (is_due now_ts) db.schedules))

unfoldable pub update_schedule_times : ℕ → ℕ → ℕ → M (Unit {0})
update_schedule_times id last_run next_run =
    stamp_schedule id
      (λ at c. record c { last_run_at = some last_run; next_run_at = next_run; updated_at = at })

unfoldable pub enable : ℕ → M (Unit {0})
enable id = stamp_schedule id (λ at c. record c { enabled = true; updated_at = at })

unfoldable pub disable : ℕ → M (Unit {0})
disable id = stamp_schedule id (λ at c. record c { enabled = false; updated_at = at })

unfoldable pub update_next_run : ℕ → ℕ → M (Unit {0})
update_next_run id next_run =
    stamp_schedule id (λ at c. record c { next_run_at = next_run; updated_at = at })

-- The rows that the claim updates: the schedule, if it is still due and enabled.
abbrev pub claimable : ℕ → ℕ → CronSchedule → Bool
claimable id current_time c = has_id id c && leb c.next_run_at current_time && c.enabled

abbrev pub set_times : ℕ → ℕ → ℕ → CronSchedule → CronSchedule
set_times last_run next_run at c = record c {
  last_run_at = some last_run;
  next_run_at = next_run;
  updated_at = at;
}

-- The number of updated rows says whether the claim succeeded.
unfoldable pub claim_and_update : ℕ → ℕ → ℕ → ℕ → M Bool
claim_and_update id current_time last_run next_run = do
  connect
  at ← now
  updated_rows ← gets (λ db. length (filter (claimable id current_time) db.schedules))
  update_where (claimable id current_time) (set_times last_run next_run at)
  pure (updated_rows == 1)

abbrev or_keep : Text → Option Text → Text
or_keep old none = old
or_keep old (some new) = new

unfoldable pub update_expression_and_timezone : ℕ → Option Text → Option Text → ℕ → M (Unit {0})
update_expression_and_timezone id cron_expression timezone next_run = stamp_schedule id (λ at c.
    record c {
      cron_expression = or_keep c.cron_expression cron_expression;
      timezone = or_keep c.timezone timezone;
      next_run_at = next_run;
      updated_at = at;
    })

abbrev enabled_rows : Bool → List CronSchedule → List CronSchedule
enabled_rows enabled_only rows = if enabled_only then filter (λ c. c.enabled) rows else rows

-- The collation that orders the names is the database's.
unfoldable pub list : (Text → Text → Bool) → Bool → ℕ → ℕ → M (List CronSchedule)
list name_before enabled_only limit offset = do
  connect
  gets (λ db. take limit (
      drop offset (
        sort_by (λ c d. name_before c.workflow_name d.workflow_name)
          (enabled_rows enabled_only db.schedules))))

unfoldable pub find_by_workflow : Text → M (List CronSchedule)
find_by_workflow workflow_name = do
  connect
  gets (λ db.
      sort_by (λ c d. leb d.created_at c.created_at)
        (filter (λ c. c.workflow_name == workflow_name) db.schedules))

unfoldable pub count : Bool → M ℕ
count enabled_only = do connect; gets (λ db. length (enabled_rows enabled_only db.schedules))
