-- ===== src/Retry.antt =====
-- crates/cloacina-workflow/src/retry.rs: the retry policy of a task and its builder. A duration
-- counts nanoseconds. `max_attempts` and the attempts, of type `i32`, are never negative here.
use cloacina.Common.{
  ℕ, ◌+◌, ◌*◌, ◌/◌, min, Bool, true, false, List, [], ◌∷◌, Option, none, some, Text, codes, any,
  leb, if◌then◌else◌, text_contains,
}
use cloacina.Common.Floats.{Float, minus_one}
use cloacina.Errors.{
  Printing, TaskError, execution_failed, dependency_not_satisfied, timeout, context_error,
  validation_failed, unknown, readiness_check_failed, trigger_rule_failed, task_error_text,
}
pub mod Builder
pub mod Delays

pub data BackoffStrategy (F64 : Type 0) : Type 0 where
  fixed : BackoffStrategy F64
  linear : (multiplier : F64) → BackoffStrategy F64
  exponential : (base multiplier : F64) → BackoffStrategy F64
  custom : (function_name : Text) → BackoffStrategy F64

pub data RetryCondition : Type 0 where
  all_errors never transient_only : RetryCondition
  error_pattern : (patterns : List Text) → RetryCondition

pub record RetryPolicy (F64 : Type 0) : Type 0 where
  pub max_attempts : ℕ
  pub backoff_strategy : BackoffStrategy F64
  pub initial_delay : ℕ
  pub max_delay : ℕ
  pub jitter : Bool
  pub retry_conditions : List RetryCondition

-- `as_millis` and `from_millis`; `seconds` is `from_secs`.
abbrev pub as_millis : ℕ → ℕ
as_millis duration = duration / 1000000

abbrev pub from_millis : ℕ → ℕ
from_millis n = n * 1000000

abbrev from_secs : ℕ → ℕ
from_secs n = n * 1000000000

module _ (float : Float) where
  open float use {F64, of_nat, to_u64, times, powi, one, two}

  unfoldable pub default_policy : RetryPolicy F64
  default_policy = record {
    max_attempts = 3;
    backoff_strategy = exponential two one;
    initial_delay = from_secs 1;
    max_delay = from_secs 60;
    jitter = true;
    retry_conditions = all_errors ∷ [];
  }

  -- The delay of the strategy, before the cap.
  unfoldable pub base_delay : BackoffStrategy F64 → ℕ → ℕ → ℕ
  base_delay fixed initial_delay attempt = initial_delay
  base_delay (linear multiplier) initial_delay attempt =
      from_millis
        (to_u64 (times (times (of_nat (as_millis initial_delay)) (of_nat attempt)) multiplier))
  base_delay (exponential base multiplier) initial_delay attempt = from_millis (
      to_u64 (
        times (times (of_nat (as_millis initial_delay)) multiplier)
          (powi base (minus_one attempt))))
  base_delay (custom function_name) initial_delay attempt =
      from_millis (to_u64 (times (of_nat (as_millis initial_delay)) (powi two (minus_one attempt))))

  -- `jitter_factor` is what the generator draws from 0.75 to 1.25.
  unfoldable pub add_jitter : ℕ → F64 → ℕ
  add_jitter delay jitter_factor =
      from_millis (to_u64 (times (of_nat (as_millis delay)) jitter_factor))

  unfoldable pub calculate_delay : RetryPolicy F64 → ℕ → F64 → ℕ
  calculate_delay policy attempt jitter_factor =
      let capped_delay =
        min (base_delay policy.backoff_strategy policy.initial_delay attempt) policy.max_delay in
      if policy.jitter then add_jitter capped_delay jitter_factor else capped_delay

  abbrev or_zero : Option ℕ → ℕ
  or_zero none = 0
  or_zero (some n) = n

  -- `from_std` is chrono's conversion of a duration, which fails on one that is too long.
  unfoldable pub calculate_retry_at : (ℕ → Option ℕ) → RetryPolicy F64 → ℕ → F64 → ℕ → ℕ
  calculate_retry_at from_std policy attempt jitter_factor now =
      now + or_zero (from_std (calculate_delay policy attempt jitter_factor))

module _ (printing : Printing) where
  open printing use {to_lowercase}

  abbrev transient_patterns : List Text
  transient_patterns =
      codes "connection"
      ∷ codes "network"
      ∷ codes "timeout"
      ∷ codes "temporary"
      ∷ codes "unavailable"
      ∷ codes "busy"
      ∷ codes "overloaded"
      ∷ codes "rate limit"
      ∷ []

  abbrev pub contains_any : Text → List Text → Bool
  contains_any error_msg patterns = any (text_contains error_msg) patterns

  unfoldable pub is_transient_error : TaskError → Bool
  is_transient_error (timeout task_id timeout_seconds) = true
  is_transient_error (execution_failed message task_id timestamp) =
      contains_any (to_lowercase message) transient_patterns
  is_transient_error (unknown task_id message) =
      contains_any (to_lowercase message) transient_patterns
  is_transient_error (context_error task_id error) = false
  is_transient_error (dependency_not_satisfied dependency task_id) = false
  is_transient_error (validation_failed message) = false
  is_transient_error (readiness_check_failed task_id) = false
  is_transient_error (trigger_rule_failed task_id) = false

  -- Some pattern stands in the message, both in lower case.
  abbrev pub matches_patterns : Text → List Text → Bool
  matches_patterns message patterns =
      any (λ pattern. text_contains (to_lowercase message) (to_lowercase pattern)) patterns

  unfoldable pub condition_holds : TaskError → RetryCondition → Bool
  condition_holds error all_errors = true
  condition_holds error never = false
  condition_holds error transient_only = is_transient_error error
  condition_holds error (error_pattern patterns) =
      matches_patterns (task_error_text printing error) patterns

  unfoldable pub should_retry : {F64 : Type 0} → RetryPolicy F64 → TaskError → ℕ → Bool
  should_retry policy error attempt =
      if leb policy.max_attempts attempt
      then false
      else any (condition_holds error) policy.retry_conditions
