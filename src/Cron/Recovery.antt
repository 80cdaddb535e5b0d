-- ===== src/Cron/Recovery.antt =====
-- crates/cloacina/src/cron_recovery.rs: the executions that were claimed and never handed off. The
-- loop that repeats the check is a timer of tokio.
use cloacina.Common.{
  ℕ, suc, ◌+◌, ◌*◌, Bool, true, false, ◌&&◌, not, List, [], ◌∷◌, ◌++◌, Option, none, some, Text,
  codes, ltb, if◌then◌else◌, Result, ok, err, nat_eq,
}
use cloacina.Common.Dict.{HashMap, get, insert, remove}
use cloacina.Context
use cloacina.Store.CronRows.{CronSchedule, CronExecution}
use cloacina.Store.CronSchedules
use cloacina.Store.CronExecutions.{find_lost_executions, update_pipeline_execution_id}
use cloacina.Store.Monad.{M, ValidationError, ◌>>=◌, now, pure, attempt_of}
use cloacina.Executor.Values.{Value, bool, string}
use cloacina.Cron.Scheduler.{
  Services, PipelineError, execution_failed, insert_all, schedule_entries, execute_with,
}

pub record CronRecoveryConfig : Type 0 where
  pub check_interval : ℕ
  pub lost_threshold_minutes : ℕ
  pub max_recovery_age : ℕ
  pub max_recovery_attempts : ℕ
  pub recover_disabled_schedules : Bool

abbrev pub default_config : CronRecoveryConfig
default_config = record {
  check_interval = 300 * 1000000000;
  lost_threshold_minutes = 10;
  max_recovery_age = 86400 * 1000000000;
  max_recovery_attempts = 3;
  recover_disabled_schedules = false;
}

-- The map that the mutex guards.
abbrev pub Attempts : Type 0
Attempts = HashMap ℕ ℕ

abbrev unwrap_or_zero : Option ℕ → ℕ
unwrap_or_zero none = 0
unwrap_or_zero (some n) = n

unfoldable pub get_recovery_attempts : ℕ → Attempts → ℕ
get_recovery_attempts execution_id attempts = unwrap_or_zero (get execution_id attempts)

abbrev pub clear_recovery_attempts : Attempts → Attempts
clear_recovery_attempts attempts = []

-- `*attempts.entry(id).or_insert(0) += 1`
abbrev pub count_attempt : ℕ → Attempts → Attempts
count_attempt id attempts = insert id (suc (get_recovery_attempts id attempts)) attempts

abbrev pub Answer : Type 0
Answer = Result PipelineError (Unit {0}) × Attempts

module _ (s : Services) (config : CronRecoveryConfig) where
  -- A failed update of the audit record is only logged.
  abbrev pub recovered : CronExecution → Attempts → Result PipelineError ℕ → M Answer
  recovered execution attempts (err e) = pure (err e, attempts)
  recovered execution attempts (ok pipeline_execution_id) =
      attempt_of (update_pipeline_execution_id execution.id pipeline_execution_id) >>= λ _.
      pure (ok tt, remove execution.id attempts)

  abbrev pub recovery_entries : CronSchedule → CronExecution → ℕ → List (Text × Value)
  recovery_entries schedule execution attempt_count =
      (codes "is_recovery", bool true)
      ∷ (codes "recovery_attempt", s.json_of_usize attempt_count)
      ∷ (codes "original_execution_id", string (s.uuid_text execution.id))
      ∷ schedule_entries s schedule execution.scheduled_time

  abbrev pub on_schedule : CronExecution → Attempts → Result ValidationError CronSchedule → M Answer
  on_schedule execution attempts (err e) = pure (ok tt, attempts)
  on_schedule execution attempts (ok schedule) =
      if not config.recover_disabled_schedules && not schedule.enabled
      then pure (ok tt, attempts)
      else (execute_with s schedule.workflow_name (
            insert_all s
              (recovery_entries schedule execution (get_recovery_attempts execution.id attempts))
              Context.new)
          >>= recovered execution attempts)

  -- `attempts` counts this attempt already.
  abbrev pub try_recovery : CronExecution → Attempts → M Answer
  try_recovery execution attempts =
      if ltb config.max_recovery_attempts (get_recovery_attempts execution.id attempts)
      then pure (ok tt, attempts)
      else attempt_of (CronSchedules.get_by_id execution.schedule_id)
        >>= on_schedule execution attempts

  unfoldable pub recover_execution : CronExecution → Attempts → M Answer
  recover_execution execution attempts = now >>= λ at.
      if ltb (execution.scheduled_time + config.max_recovery_age) at
      then pure (ok tt, attempts)
      else try_recovery execution (count_attempt execution.id attempts)

  -- An error of one execution is logged and the loop goes on.
  unfoldable pub recover_executions : List CronExecution → Attempts → M Attempts
  recover_executions [] attempts = pure attempts
  recover_executions (execution ∷ lost_executions) attempts = do
    r ← recover_execution execution attempts
    recover_executions lost_executions r.1

  abbrev pub on_lost : Attempts → Result ValidationError (List CronExecution) → M Answer
  on_lost attempts (err e) =
      pure (
        err (execution_failed (codes "Failed to find lost executions: " ++ s.describe e)),
        attempts,
      )
  on_lost attempts (ok lost_executions) =
      recover_executions lost_executions attempts >>= λ after. pure (ok tt, after)

  unfoldable pub check_and_recover_lost_executions : Attempts → M Answer
  check_and_recover_lost_executions attempts =
      attempt_of (find_lost_executions config.lost_threshold_minutes) >>= on_lost attempts
