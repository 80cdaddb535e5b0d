-- ===== src/Retry/Delays.antt =====
-- How far a delay may lie from the cap of its policy.
use cloacina.Common.{ℕ, ◌+◌, ◌*◌, ◌≤◌, ◌<◌, min, false, arith, Bool-cases, inl, inr}
use cloacina.Common.Floats.{Float, FloatLaws, exact_limit}
use cloacina.Retry.Builder
use cloacina.Retry.{RetryPolicy, add_jitter, calculate_delay, base_delay, as_millis}

module _ (float : Float) (laws : FloatLaws float) where
  open float use {F64}
  open laws use {Le, three_quarters, five_quarters}

  module _ (factor : F64) (low : Le three_quarters factor) (high : Le factor five_quarters) where
    add_jitter_bounds :
        (delay : ℕ)
        → as_millis delay < exact_limit
        → (4 * add_jitter float delay factor ≤ 5 * delay)
          × (3 * delay < 4 * add_jitter float delay factor + 6000000)
    unfolding add_jitter
    add_jitter_bounds delay h =
        let n = as_millis delay in
        let above = laws.to_u64-mono _ _ (laws.times-mono n factor five_quarters high) in
        let below = laws.to_u64-mono _ _ (laws.times-mono n three_quarters factor low) in
        let five = laws.times-five_quarters n h in
        let three = laws.times-three_quarters n h in (omega arith, omega arith)

    -- The delay without jitter is at most the cap of the policy. The jitter is drawn after the cap,
    -- so it moves the delay by a quarter at most and, where it lowers it, by less than six
    -- milliseconds more over four, for the fractions of a millisecond that it cuts off: a delay may be
    -- up to a quarter above the cap. The factor lies between 0.75 and 1.25 and the cap is below 2 ^ 50
    -- milliseconds.
    pub calculate_delay_bounds :
        (policy : RetryPolicy F64) (attempt : ℕ)
        → as_millis policy.max_delay < exact_limit
        → let capped = calculate_delay float (Builder.with_jitter false policy) attempt factor in
          let delay = calculate_delay float policy attempt factor in
          (capped ≤ policy.max_delay)
          × (4 * delay ≤ 5 * capped)
          × (3 * capped < 4 * delay + 6000000)
    unfolding calculate_delay Builder.with_jitter
    calculate_delay_bounds policy attempt h =
        let base = base_delay float policy.backoff_strategy policy.initial_delay attempt in
        elim (Bool-cases policy.jitter) [
          | inl jittered ↦
              let moved = add_jitter_bounds (min base policy.max_delay) (omega arith) in
              rw jittered (omega arith, moved.0, moved.1)
          | inr plain ↦ rw plain (omega arith, omega arith, omega arith)
        ]
