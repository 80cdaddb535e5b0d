-- ===== src/Retry/Builder.antt =====
-- crates/cloacina-workflow/src/retry.rs: `RetryPolicyBuilder`, which holds a policy that `build` hands
-- out.
use cloacina.Common.{ℕ, Bool, List, [], ◌∷◌}
use cloacina.Retry.{BackoffStrategy, RetryCondition, RetryPolicy}

module _ {F64 : Type 0} where
  unfoldable pub max_attempts : ℕ → RetryPolicy F64 → RetryPolicy F64
  max_attempts n policy = record policy { max_attempts = n }

  unfoldable pub backoff_strategy : BackoffStrategy F64 → RetryPolicy F64 → RetryPolicy F64
  backoff_strategy strategy policy = record policy { backoff_strategy = strategy }

  unfoldable pub initial_delay : ℕ → RetryPolicy F64 → RetryPolicy F64
  initial_delay delay policy = record policy { initial_delay = delay }

  unfoldable pub max_delay : ℕ → RetryPolicy F64 → RetryPolicy F64
  max_delay delay policy = record policy { max_delay = delay }

  unfoldable pub with_jitter : Bool → RetryPolicy F64 → RetryPolicy F64
  with_jitter jitter policy = record policy { jitter = jitter }

  unfoldable pub retry_condition : RetryCondition → RetryPolicy F64 → RetryPolicy F64
  retry_condition condition policy = record policy { retry_conditions = condition ∷ [] }

  unfoldable pub retry_conditions : List RetryCondition → RetryPolicy F64 → RetryPolicy F64
  retry_conditions conditions policy = record policy { retry_conditions = conditions }
