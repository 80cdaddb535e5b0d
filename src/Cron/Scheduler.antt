-- ===== src/Cron/Scheduler.antt =====
-- crates/cloacina/src/cron_scheduler.rs: the check of the due schedules. The loop that repeats it is
-- a timer of tokio.
use cloacina.Common.{
  ℕ, Bool, true, false, List, [], ◌∷◌, ◌++◌, Option, none, some, Text, codes, ltb, if◌then◌else◌,
  Result, ok, err,
}
use cloacina.Context
use cloacina.Context.{Context, ContextError, key_exists, key_not_found}
use cloacina.Store.CronRows.{CronSchedule, policy_of, skip, run_all}
use cloacina.Store.CronSchedules.{get_due_schedules, claim_and_update}
use cloacina.Store.CronExecutions
use cloacina.Store.CronExecutions.{update_pipeline_execution_id}
use cloacina.Store.Monad.{M, Db, ValidationError, ◌>>=◌, ◌>>◌, now, pure, attempt_of}
use cloacina.Errors.{TaskError, ExecutorError}
use cloacina.Executor.Values.{Value, string}
use cloacina.Cron.Evaluator
use cloacina.Cron.Evaluator.{Croner, CronError, next_execution, executions_between}

pub record CronSchedulerConfig : Type 0 where
  pub poll_interval : ℕ
  pub max_catchup_executions : ℕ
  pub max_acceptable_delay : ℕ

abbrev pub default_config : CronSchedulerConfig
default_config = record {
  poll_interval = 30000000000;
  max_catchup_executions = 100;
  max_acceptable_delay = 300000000000;
}

-- crates/cloacina/src/executor/pipeline_executor.rs
pub data PipelineError : Type 0 where
  database_connection : (message : Text) → PipelineError
  workflow_not_found : (workflow_name : Text) → PipelineError
  execution_failed : (message : Text) → PipelineError
  timeout : (timeout_seconds : ℕ) → PipelineError
  validation : ValidationError → PipelineError
  task_execution : TaskError → PipelineError
  executor : ExecutorError → PipelineError
  configuration : (message : Text) → PipelineError

-- What the cron services call: the libraries, what `Display` prints of an error, a time and an
-- identifier, `json!` of a count, and `PipelineExecutor::execute` with the identifier of its result.
pub record Services : Type 1 where
  pub croner : Croner
  pub describe_cron : CronError → Text
  pub describe : ValidationError → Text
  pub describe_context : ContextError → Text
  pub to_rfc3339 : ℕ → Text
  pub uuid_text : ℕ → Text
  pub json_of_usize : ℕ → Value
  pub execute : Text → Context Value → Db → Result PipelineError ℕ × Db

-- A call that reports its failures in its answer.
unfoldable pub answer_of : {A : Type 0} → (Db → A × Db) → M A
answer_of f db = (ok (f db).0, (f db).1)

module _ (s : Services) where
  open s use {croner, describe_cron, describe, describe_context, to_rfc3339, uuid_text}

  abbrev before_start : ℕ → Option ℕ → Bool
  before_start at none = false
  before_start at (some start) = ltb at start

  abbrev after_end : ℕ → Option ℕ → Bool
  after_end at none = false
  after_end at (some end) = ltb end at

  unfoldable pub is_schedule_active : CronSchedule → ℕ → Bool
  is_schedule_active schedule at =
      if before_start at schedule.start_date
      then false
      else if after_end at schedule.end_date
      then false
      else true

  abbrev evaluation : {A : Type 0} → Result CronError A → Result PipelineError A
  evaluation (ok a) = ok a
  evaluation (err e) = err (execution_failed (codes "Cron evaluation error: " ++ describe_cron e))

  abbrev then_ok :
      {A B : Type 0}
      → Result PipelineError A
      → (A → Result PipelineError B)
      → Result PipelineError B
  then_ok (ok a) f = f a
  then_ok (err e) f = err e

  abbrev pub last_or_created : CronSchedule → Option ℕ → ℕ
  last_or_created schedule none = schedule.created_at
  last_or_created schedule (some t) = t

  unfoldable pub calculate_execution_times :
      CronSchedulerConfig → CronSchedule → ℕ → Result PipelineError (List ℕ)
  calculate_execution_times config schedule at = elim (policy_of schedule.catchup_policy) [
    | skip ↦ ok (schedule.next_run_at ∷ [])
    | run_all ↦
        then_ok (evaluation (Evaluator.new croner schedule.cron_expression schedule.timezone)) λ ev.
          evaluation (
            executions_between croner ev (last_or_created schedule schedule.last_run_at) at
              config.max_catchup_executions)
  ]

  unfoldable pub calculate_next_run : CronSchedule → ℕ → Result PipelineError ℕ
  calculate_next_run schedule after =
      then_ok (evaluation (Evaluator.new croner schedule.cron_expression schedule.timezone))
        λ ev. evaluation (next_execution croner ev after)

  abbrev context_error : Result ContextError (Context Value) → Result PipelineError (Context Value)
  context_error (ok c) = ok c
  context_error (err e) = err (execution_failed (codes "Context error: " ++ describe_context e))

  -- The chain of inserts, each with its `?`.
  unfoldable pub insert_all :
      List (Text × Value) → Context Value → Result PipelineError (Context Value)
  insert_all [] context = ok context
  insert_all ((key, value) ∷ rest) context =
      then_ok (context_error (Context.insert key value context)) (insert_all rest)

  abbrev pub schedule_entries : CronSchedule → ℕ → List (Text × Value)
  schedule_entries schedule scheduled_time =
      (codes "scheduled_time", string (to_rfc3339 scheduled_time))
      ∷ (codes "schedule_id", string (uuid_text schedule.id))
      ∷ (codes "schedule_timezone", string schedule.timezone)
      ∷ (codes "schedule_expression", string schedule.cron_expression)
      ∷ []

  abbrev pub execute_with : Text → Result PipelineError (Context Value) → M (Result PipelineError ℕ)
  execute_with workflow_name (ok context) = answer_of (s.execute workflow_name context)
  execute_with workflow_name (err e) = pure (err e)

  unfoldable pub execute_workflow : CronSchedule → ℕ → M (Result PipelineError ℕ)
  execute_workflow schedule scheduled_time =
      execute_with schedule.workflow_name
        (insert_all (schedule_entries schedule scheduled_time) Context.new)

  unfoldable pub create_execution_audit : ℕ → ℕ → M ℕ
  create_execution_audit schedule_id scheduled_time = do
    audit_record ← CronExecutions.create schedule_id scheduled_time
    pure audit_record.id

  unfoldable pub complete_execution_audit : ℕ → ℕ → M (Unit {0})
  complete_execution_audit audit_record_id pipeline_execution_id =
      update_pipeline_execution_id audit_record_id pipeline_execution_id

  -- A failed execution leaves the audit record without a pipeline; errors are only logged.
  abbrev pub finish_audit : ℕ → Result PipelineError ℕ → M (Unit {0})
  finish_audit audit_record_id (err e) = pure tt
  finish_audit audit_record_id (ok pipeline_execution_id) =
      attempt_of (complete_execution_audit audit_record_id pipeline_execution_id) >>= λ _. pure tt

  abbrev pub run_audited : CronSchedule → ℕ → Result ValidationError ℕ → M (Unit {0})
  run_audited schedule scheduled_time (err e) = pure tt
  run_audited schedule scheduled_time (ok audit_record_id) =
      execute_workflow schedule scheduled_time >>= finish_audit audit_record_id

  -- The loop over the execution times: an audit record first, then the workflow.
  unfoldable pub run_times : CronSchedule → List ℕ → M (Unit {0})
  run_times schedule [] = pure tt
  run_times schedule (t ∷ ts) = do
    audit ← attempt_of (create_execution_audit schedule.id t)
    run_audited schedule t audit
    run_times schedule ts

  abbrev pub on_claim :
      CronSchedule → List ℕ → Result ValidationError Bool → M (Result PipelineError (Unit {0}))
  on_claim schedule times (err e) = pure (err (execution_failed (describe e)))
  on_claim schedule times (ok false) = pure (ok tt)
  on_claim schedule times (ok true) = do run_times schedule times; pure (ok tt)

  abbrev pub claim_for :
      CronSchedule → ℕ → List ℕ → Result PipelineError ℕ → M (Result PipelineError (Unit {0}))
  claim_for schedule at times (err e) = pure (err e)
  claim_for schedule at times (ok next_run) =
      attempt_of (claim_and_update schedule.id at at next_run) >>= on_claim schedule times

  abbrev pub with_times :
      CronSchedule → ℕ → Result PipelineError (List ℕ) → M (Result PipelineError (Unit {0}))
  with_times schedule at (err e) = pure (err e)
  with_times schedule at (ok []) = pure (ok tt)
  with_times schedule at (ok (t ∷ ts)) =
      claim_for schedule at (t ∷ ts) (calculate_next_run schedule at)

  unfoldable pub process_schedule :
      CronSchedulerConfig → CronSchedule → ℕ → M (Result PipelineError (Unit {0}))
  process_schedule config schedule at =
      if is_schedule_active schedule at
      then with_times schedule at (calculate_execution_times config schedule at)
      else pure (ok tt)

  unfoldable pub process_schedules : CronSchedulerConfig → List CronSchedule → ℕ → M (Unit {0})
  process_schedules config [] at = pure tt
  process_schedules config (schedule ∷ schedules) at = do
    r ← process_schedule config schedule at
    process_schedules config schedules at

  abbrev on_due :
      CronSchedulerConfig
      → ℕ
      → Result ValidationError (List CronSchedule)
      → M (Result PipelineError (Unit {0}))
  on_due config at (err e) = pure (err (execution_failed (describe e)))
  on_due config at (ok due_schedules) = do process_schedules config due_schedules at; pure (ok tt)

  unfoldable pub check_and_execute_schedules :
      CronSchedulerConfig → M (Result PipelineError (Unit {0}))
  check_and_execute_schedules config = do
    at ← now
    due_schedules ← attempt_of (get_due_schedules at)
    on_due config at due_schedules
