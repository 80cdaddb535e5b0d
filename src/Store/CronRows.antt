-- ===== src/Store/CronRows.antt =====
-- crates/cloacina/src/models/cron_schedule.rs and cron_execution.rs: the rows of the cron tables.
use cloacina.Common.{
  ℕ, Bool, Option, Text, codes, ◌==◌, text_eq, if◌then◌else◌, ltb, leb, false, ◌-◌,
}

pub record CronSchedule : Type 0 where
  pub id : ℕ
  pub workflow_name : Text
  pub cron_expression : Text
  pub timezone : Text
  pub enabled : Bool
  pub catchup_policy : Text
  pub start_date : Option ℕ
  pub end_date : Option ℕ
  pub next_run_at : ℕ
  pub last_run_at : Option ℕ
  pub created_at : ℕ
  pub updated_at : ℕ

pub record NewCronSchedule : Type 0 where
  pub workflow_name : Text
  pub cron_expression : Text
  pub timezone : Option Text
  pub enabled : Option Bool
  pub catchup_policy : Option Text
  pub start_date : Option ℕ
  pub end_date : Option ℕ
  pub next_run_at : ℕ

pub data CatchupPolicy : Type 0 where
  skip run_all : CatchupPolicy

-- `From<CatchupPolicy> for String` and back.
unfoldable pub policy_text : CatchupPolicy → Text
policy_text skip = codes "skip"
policy_text run_all = codes "run_all"

unfoldable pub policy_of : Text → CatchupPolicy
policy_of s = if s == codes "run_all" then run_all else if s == codes "run_once" then skip else skip

pub record CronExecution : Type 0 where
  pub id : ℕ
  pub schedule_id : ℕ
  pub pipeline_execution_id : Option ℕ
  pub scheduled_time : ℕ
  pub claimed_at : ℕ
  pub created_at : ℕ
  pub updated_at : ℕ

pub data Duration : Type 0 where
  forth : ℕ → Duration
  back : ℕ → Duration

-- `a - b` of two times: a duration forth in time, or back.
unfoldable pub since : ℕ → ℕ → Duration
since a b = if ltb a b then back (b - a) else forth (a - b)

abbrev pub execution_delay : CronExecution → Duration
execution_delay e = since e.claimed_at e.scheduled_time

abbrev within : ℕ → Duration → Bool
within tolerance (forth n) = leb n tolerance
within tolerance (back n) = false

unfoldable pub is_timely : ℕ → CronExecution → Bool
is_timely tolerance e = within tolerance (execution_delay e)
