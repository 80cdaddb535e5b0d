-- ===== src/Examples/Surroundings.antt =====
-- Simple surroundings of an executor: quarters for floats, and a task that runs into its time limit.
use cloacina.Common.{ℕ, ◌*◌, ◌/◌, ◌≤◌, true, [], ◌∷◌, none, some, codes, ltb, arith}
use cloacina.Common.Floats.{Float, FloatLaws}
use cloacina.Errors.{Printing}
use cloacina.Retry.{RetryPolicy, all_errors, fixed}
use cloacina.Executor.Contexts.{Parser}
use cloacina.Executor.Outcomes.{default_config}
use cloacina.Executor.Threads.{ThreadTaskExecutor, TaskCode, Surroundings}
use cloacina.Dispatcher.{DefaultDispatcher}

-- A number of quarters.
abbrev pub quarters : Float
quarters = record {
  F64 = ℕ;
  of_nat = λ n. n * 4;
  to_u64 = λ a. a / 4;
  times = λ a b. a * b / 4;
  divided_by = λ a b. a * 4 / b;
  powi = λ a n. a;
  one = 4;
  two = 8;
}

pub times_mono : (n a b : ℕ) → a ≤ b → n * 4 * a / 4 ≤ n * 4 * b / 4
times_mono n a b h = grind arith

abbrev pub quarters_laws : FloatLaws quarters
quarters_laws = record {
  Le = ◌≤◌;
  three_quarters = 3;
  five_quarters = 5;
  times-mono = times_mono;
  to_u64-mono = λ a b h. omega arith;
  times-three_quarters = λ n h. omega arith;
  times-five_quarters = λ n h. omega arith;
}

abbrev parser : Parser
parser = record {
  F64 = ℕ;
  as_f64 = λ n. n;
  zero_f64 = 0;
  f64_lt = ltb;
  context_from_json = λ text. none;
  rule_from_json = λ text. none;
}

abbrev pub printing : Printing
printing = record { to_lowercase = λ text. text; decimal = λ n. n ∷ [] }

abbrev pub twice_policy : RetryPolicy ℕ
twice_policy = record {
  max_attempts = 2;
  backoff_strategy = fixed;
  initial_delay = 5000000;
  max_delay = 9000000;
  jitter = true;
  retry_conditions = all_errors ∷ [];
}

-- Every task is known, and none ends in time.
abbrev slow_tasks : TaskCode ℕ
slow_tasks = record {
  Code = Unit {0};
  get_task = λ ns. some tt;
  dependencies = λ task. [];
  retry_policy = λ task. twice_policy;
  run = λ task limit moment context. none;
  draw = λ moment. 4;
}

abbrev pub surroundings : Surroundings
surroundings = record {
  float = quarters;
  printing = printing;
  parser = parser;
  serde = record {
    to_json = λ entries. some (codes "{}");
    without_whitespace = λ text. text;
    always_json = codes "Always";
    empty_object = codes "{}";
  };
  tasks = slow_tasks;
  describe = λ e. codes "refused";
}

abbrev pub idle : ThreadTaskExecutor
idle = record { config = default_config; active_tasks = 0; total_executed = 0; total_failed = 0 }

abbrev pub dispatcher : DefaultDispatcher ThreadTaskExecutor
dispatcher = record {
  executors = (codes "default", idle) ∷ [];
  router = record { default_executor = codes "default"; rules = [] };
}
