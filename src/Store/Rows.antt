-- ===== src/Store/Rows.antt =====
-- crates/cloacina/src/models: the rows of the tables. A UUID is a number, a timestamp counts
-- ticks, and an `i32` that the program only increments from 0 or 1 is a natural number. The status
-- column holds one of the texts that the program writes, so it is an enumeration.
use cloacina.Common.{ℕ, ◌≡◌, ◌↔◌, Bool, true, Option, Text, Eq, nat_beq, arith}

pub data Status : Type 0 where
  not_started pending ready running completed failed skipped : Status

abbrev status_code : Status → ℕ
status_code not_started = 0
status_code pending = 1
status_code ready = 2
status_code running = 3
status_code completed = 4
status_code failed = 5
status_code skipped = 6

abbrev pub status_beq : Status → Status → Bool
status_beq a b = nat_beq (status_code a) (status_code b)

pub status_beq_iff : (a b : Status) → (status_beq a b ≡ true) ↔ (a ≡ b)
status_beq_iff a b = ground arith

instance abbrev pub status_eq : Eq Status
status_eq = record { test = status_beq; decides = status_beq_iff }

pub data PipelineStatus : Type 0 where
  pending running completed failed cancelled : PipelineStatus

pub record TaskExecution : Type 0 where
  pub id : ℕ
  pub pipeline_execution_id : ℕ
  pub task_name : Text
  pub status : Status
  pub started_at : Option ℕ
  pub completed_at : Option ℕ
  pub attempt : ℕ
  pub max_attempts : ℕ
  pub error_details : Option Text
  pub trigger_rules : Text
  pub task_configuration : Text
  pub retry_at : Option ℕ
  pub last_error : Option Text
  pub recovery_attempts : ℕ
  pub last_recovery_at : Option ℕ
  pub created_at : ℕ
  pub updated_at : ℕ

pub record NewTaskExecution : Type 0 where
  pub pipeline_execution_id : ℕ
  pub task_name : Text
  pub status : Status
  pub attempt : ℕ
  pub max_attempts : ℕ
  pub trigger_rules : Text
  pub task_configuration : Text

pub record PipelineExecution : Type 0 where
  pub id : ℕ
  pub pipeline_name : Text
  pub pipeline_version : Text
  pub status : PipelineStatus
  pub context_id : Option ℕ
  pub started_at : ℕ
  pub completed_at : Option ℕ
  pub error_details : Option Text
  pub recovery_attempts : ℕ
  pub last_recovery_at : Option ℕ
  pub created_at : ℕ
  pub updated_at : ℕ

-- The columns of `task_execution_metadata` that the scheduler and the executor read: all but the
-- row's own id, `created_at` and `updated_at`, so that an upsert's `updated_at` is not modelled.
pub record TaskExecutionMetadata : Type 0 where
  pub task_execution_id : ℕ
  pub pipeline_execution_id : ℕ
  pub task_name : Text
  pub context_id : Option ℕ

pub data RecoveryType : Type 0 where
  task_reset task_abandoned pipeline_failed workflow_unavailable : RecoveryType

pub record NewRecoveryEvent : Type 0 where
  pub pipeline_execution_id : ℕ
  pub task_execution_id : Option ℕ
  pub recovery_type : RecoveryType
