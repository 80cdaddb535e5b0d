-- ===== src/Cron/RunningOut.antt =====
-- crates/cloacina/src/cron_recovery.rs: an execution whose hand-off fails each time.
use cloacina.Common.{
  ℕ, suc, ◌+◌, ◌≤◌, ◌≡◌, refl, ◌∙◌, false, ◌&&◌, not, List, [], ◌∷◌, length, All, Result, ok, err,
  arith, nat_eq, ==_refl, Bool-cases, inl, inr, ltb, Text,
}
use cloacina.Context.{Context}
use cloacina.Store.CronRows.{CronSchedule, CronExecution}
use cloacina.Store.Monad.{M, Db, ValidationError, gets, ◌>>=◌}
use cloacina.Executor.Values.{Value}
use cloacina.Cron.Scheduler.{Services, PipelineError, answer_of, execute_with}
use cloacina.Cron.Recovery.{
  CronRecoveryConfig, Attempts, Answer, get_recovery_attempts, count_attempt, recovered,
  on_schedule, try_recovery, recover_execution,
}
use cloacina.Cron.GivingUp.{
  Answers, Answers-pure, Answers-bind, Answers-attempt, Any, attempts-count, attempts_after,
  check_and_recover-gives_up,
}

-- The executor refuses each workflow.
abbrev pub Fails : Services → Type 0
Fails s =
    (name : Text) (context : Context Value) (db : Db)
    → (x : PipelineError) × ((s.execute name context db).0 ≡ err x)

module _ (s : Services) (fails : Fails s) (config : CronRecoveryConfig) (e : CronExecution) where
  abbrev count : Attempts → ℕ
  count attempts = get_recovery_attempts e.id attempts

  abbrev Counts : ℕ → M Answer → Type 0
  Counts n m = Answers m (λ a. count a.1 ≡ n)

  abbrev Refused : Result PipelineError ℕ → Type 0
  Refused r = (x : PipelineError) × (r ≡ err x)

  execute_with-Refused :
      (name : Text) (r : Result PipelineError (Context Value))
      → Answers (execute_with s name r) Refused
  unfolding answer_of
  execute_with-Refused name (ok context) = record { at = λ db. (_, refl, fails name context db) }
  execute_with-Refused name (err x) = Answers-pure _ (x, refl)

  recovered-Counts :
      (attempts : Attempts) (r : Result PipelineError ℕ)
      → Refused r
      → Counts (count attempts) (recovered s config e attempts r)
  recovered-Counts attempts (err x) h = Answers-pure _ refl
  recovered-Counts attempts (ok p) h = absurd (let c : ok p ≡ err h.0 = h.1 in cc)

  on_schedule-Counts :
      (attempts : Attempts) (r : Result ValidationError CronSchedule)
      → Counts (count attempts) (on_schedule s config e attempts r)
  on_schedule-Counts attempts (err x) = Answers-pure _ refl
  on_schedule-Counts attempts (ok c) =
      elim (Bool-cases (not config.recover_disabled_schedules && not c.enabled)) [
        | inl skipped ↦ rw skipped (Answers-pure _ refl)
        | inr active ↦ rw active (
            Answers-bind Refused (execute_with-Refused c.workflow_name _)
              (recovered-Counts attempts))
      ]

  try_recovery-Counts :
      (attempts : Attempts) → Counts (count attempts) (try_recovery s config e attempts)
  try_recovery-Counts attempts =
      elim (Bool-cases (ltb config.max_recovery_attempts (count attempts))) [
        | inl spent ↦ rw spent (Answers-pure _ refl)
        | inr left ↦
            rw left (Answers-bind Any (Answers-attempt _) (λ r q. on_schedule-Counts attempts r))
      ]

  -- The execution is not too old to be recovered.
  abbrev pub Young : Db → Type 0
  Young db = db.world.clock db.calls ≤ e.scheduled_time + config.max_recovery_age

  recover_execution-Counts :
      (attempts : Attempts) (db : Db)
      → Young db
      → count (attempts_after s config e.id attempts (recover_execution s config e attempts db).0)
        ≡ suc (count attempts)
  unfolding recover_execution gets ◌>>=◌
  recover_execution-Counts attempts db young =
      let now_young : ltb (e.scheduled_time + config.max_recovery_age) (db.world.clock db.calls)
          ≡ false =
        ground arith in
      let counted = attempts-count e.id e.id attempts in
      let run = (try_recovery-Counts (count_attempt e.id attempts)).at db in
      rw (now_young, run.1) (run.2 ∙ counted ∙ rw (==_refl e.id) refl)

  -- The recoveries of the execution, each at the database that it finds.
  abbrev pub after_recoveries : List Db → Attempts → Attempts
  after_recoveries [] attempts = attempts
  after_recoveries (db ∷ dbs) attempts =
      after_recoveries dbs
        (attempts_after s config e.id attempts (recover_execution s config e attempts db).0)

  after_recoveries-count :
      (dbs : List Db) (attempts : Attempts)
      → All Young dbs
      → count (after_recoveries dbs attempts) ≡ count attempts + length dbs
  after_recoveries-count [] attempts young = omega arith
  after_recoveries-count (db ∷ dbs) attempts young = omega (
    arith,
    recover_execution-Counts attempts db young.0,
    after_recoveries-count dbs
        (attempts_after s config e.id attempts (recover_execution s config e attempts db).0)
        young.1,
  )

-- An execution whose hand-off fails each time is given up: once as many recoveries as the limit have
-- been made while it was not too old, at whatever databases, a further recovery answers without an
-- error and leaves the database as it is, so the workflow is not run again for it.
pub recover_execution-runs_out :
    (s : Services) (fails : Fails s) (config : CronRecoveryConfig) (e : CronExecution)
    (dbs : List Db) (attempts : Attempts) (db : Db)
    → All (Young s fails config e) dbs
    → config.max_recovery_attempts ≤ length dbs
    → (a : Attempts) × (recover_execution s config e
          (after_recoveries s fails config e dbs attempts)
          db
        ≡ (ok (ok tt, a), db))
recover_execution-runs_out s fails config e dbs attempts db young enough =
    let total = after_recoveries-count s fails config e dbs attempts young in
    let up =
      check_and_recover-gives_up s config e [] (after_recoveries s fails config e dbs attempts) db
        (omega arith) in
    (up.0, up.1)
