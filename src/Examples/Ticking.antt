-- ===== src/Examples/Ticking.antt =====
-- The cron services at concrete inputs: an expression that occurs at each multiple of ten.
use cloacina.Common.{
  err, ok-injective, ℕ, ◌+◌, ◌*◌, ◌/◌, ◌%◌, ◌≤◌, ◌≡◌, ◌⊎◌, refl, true, [], ◌∷◌, List, some, none,
  codes, ok, arith, length, mem, All, nat_eq, ◌<◌,
}
use cloacina.Common.Dict
use cloacina.Store.CronRows.{CronSchedule, CronExecution}
use cloacina.Store.CronSchedules.{claim_and_update}
use cloacina.Store.Monad.{Db, BackendType, connect, gets, modify, pure, ◌>>◌}
use cloacina.Executor.Values.{number}
use cloacina.Cron.Evaluator.{Croner, CronEvaluator, next_execution, executions_between}
use cloacina.Cron.Occurrences.{FindsNext, Ascending, executions_between_lem}
use cloacina.Cron.Claims.{claim_and_update-once}
use cloacina.Cron.Scheduler.{Services, execution_failed, process_schedule, default_config}
use cloacina.Cron.Fates.{hand_over}
use cloacina.Cron.Auditing.{Audits, process_schedule-Audits}
use cloacina.Cron.Recovery
use cloacina.Cron.Recovery.{recover_execution}
use cloacina.Cron.GivingUp.{after_checks, check_and_recover-gives_up}
use cloacina.Cron.RunningOut.{after_recoveries, recover_execution-runs_out}
use cloacina.Examples.Samples.{database}

abbrev tens : Croner
tens = record {
  Cron = Unit {0};
  Tz = Unit {0};
  parse_cron = λ s. ok tt;
  parse_timezone = λ s. some tt;
  find_next_occurrence = λ c tz t. ok ((t / 10 + 1) * 10);
}

abbrev every_ten : CronEvaluator tens
every_ten = record {
  cron = tt;
  timezone = tt;
  expression = codes "*/10";
  timezone_str = codes "UTC";
}

abbrev AtTen : ℕ → Type 0
AtTen t = t % 10 ≡ 0

finds_tens : FindsNext tens every_ten
finds_tens = record {
  Occurs = AtTen;
  sound =
      λ after t h. let e : (after / 10 + 1) * 10 ≡ t = ok-injective h in (omega arith, omega arith);
  first = λ after t u h lt o. let e : (after / 10 + 1) * 10 ≡ t = ok-injective h in omega arith;
}

abbrev three : List ℕ
three = 10 ∷ 20 ∷ 30 ∷ []

executions_between_lem_example :
    Ascending 5 45 three
    × All AtTen three
    × (length three ≤ 3)
    × ((u : ℕ)
        → 5 < u
        → u < 45
        → AtTen u
        → (mem u three ≡ true) ⊎ ((length three ≡ 3) × All (λ t. t < u) three))
unfolding executions_between next_execution finds_tens
executions_between_lem_example =
    executions_between_lem tens every_ten finds_tens 3 5 45 {ts = three} refl

abbrev nightly : CronSchedule
nightly = record {
  id = 4;
  workflow_name = codes "etl";
  cron_expression = codes "*/10";
  timezone = codes "UTC";
  enabled = true;
  catchup_policy = codes "run_all";
  start_date = none;
  end_date = none;
  next_run_at = 10;
  last_run_at = some 5;
  created_at = 0;
  updated_at = 0;
}

abbrev with_nightly : Db
with_nightly = record (database BackendType.sqlite []) { schedules = nightly ∷ [] }

claim_and_update-once_example :
    ¬ ((claim_and_update 4 48 48 60 (claim_and_update 4 45 45 50 with_nightly).1).0 ≡ ok true)
unfolding claim_and_update ◌>>◌ connect gets modify pure
claim_and_update-once_example =
    claim_and_update-once 4 45 48 45 48 50 60 with_nightly
      (claim_and_update 4 45 45 50 with_nightly).1 (omega arith) refl refl (omega arith)

abbrev services : Services
services = record {
  croner = tens;
  describe_cron = λ e. [];
  describe = λ e. [];
  describe_context = λ e. [];
  to_rfc3339 = λ t. [];
  uuid_text = λ i. [];
  json_of_usize = λ n. number n;
  execute =
      λ name context db. (ok 77, record db { world = hand_over db.world ((name, context) ∷ []) });
}

process_schedule-Audits_example :
    Audits services nightly default_config 45 with_nightly
      (process_schedule services default_config nightly 45 with_nightly).1
process_schedule-Audits_example =
    process_schedule-Audits services (λ name context db. (refl, refl, refl)) default_config nightly
      45 with_nightly

abbrev lost : CronExecution
lost = record {
  id = 3;
  schedule_id = 4;
  pipeline_execution_id = none;
  scheduled_time = 10;
  claimed_at = 12;
  created_at = 12;
  updated_at = 12;
}

abbrev with_lost : Db
with_lost = record with_nightly { cron_executions = lost ∷ [] }

check_and_recover-gives_up_example :
    (a : Recovery.Attempts) × (recover_execution services Recovery.default_config lost
        (after_checks services Recovery.default_config 3 (with_lost ∷ with_lost ∷ []) ((3, 3) ∷ []))
        with_lost
      ≡ (ok (ok tt, a), with_lost))
    × (3 ≤ Recovery.get_recovery_attempts 3 a)
unfolding Recovery.get_recovery_attempts Dict.get
check_and_recover-gives_up_example =
    check_and_recover-gives_up services Recovery.default_config lost (with_lost ∷ with_lost ∷ [])
      ((3, 3) ∷ []) with_lost (omega arith)

abbrev refusing : Services
refusing = record services {
  execute = λ name context db. (err (execution_failed (codes "no such workflow")), db);
}

recover_execution-runs_out_example :
    (a : Recovery.Attempts) × (recover_execution refusing Recovery.default_config lost
        (after_recoveries refusing
          (λ name context db. (_, refl))
          Recovery.default_config
          lost
          (with_lost ∷ with_lost ∷ with_lost ∷ [])
          [])
        with_lost
      ≡ (ok (ok tt, a), with_lost))
recover_execution-runs_out_example =
    recover_execution-runs_out refusing (λ name context db. (_, refl)) Recovery.default_config lost
      (with_lost ∷ with_lost ∷ with_lost ∷ []) [] with_lost
      (omega arith, (omega arith, (omega arith, tt))) (omega arith)
