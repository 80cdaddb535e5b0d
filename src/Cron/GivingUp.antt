-- ===== src/Cron/GivingUp.antt =====
-- The bound on the attempts of crates/cloacina/src/cron_recovery.rs.
use cloacina.Common.{
  ==→eq, ==_refl, ℕ, suc, ◌+◌, ◌≤◌, ◌≡◌, refl, ap, ◌∙◌, true, false, ◌&&◌, not, List, [], ◌∷◌,
  Result, ok, err, arith, nat_eq, ◌==◌, Bool-cases, inl, inr, ltb, if◌then◌else◌, Text,
}
use cloacina.Common.Dict.{remove, get-insert, get-remove}
use cloacina.Context.{Context}
use cloacina.Store.CronRows.{CronSchedule, CronExecution}
use cloacina.Store.Monad.{M, Db, ValidationError, gets, pure, attempt_of, ◌>>=◌}
use cloacina.Executor.Values.{Value}
use cloacina.Cron.Scheduler.{Services, PipelineError, answer_of, execute_with}
use cloacina.Cron.Recovery.{
  CronRecoveryConfig, Attempts, Answer, get_recovery_attempts, count_attempt, recovered,
  on_schedule, try_recovery, recover_execution, recover_executions, on_lost,
  check_and_recover_lost_executions,
}

-- A run that answers, and what holds of its answer.
pub record Answers {A : Type 0} (m : M A) (P : A → Type 0) : Type 0 where
  pub at : (db : Db) → (a : A) × ((m db).0 ≡ ok a) × P a

module _ {A : Type 0} {P : A → Type 0} where
  pub Answers-pure : (a : A) → P a → Answers (pure a) P
  unfolding pure
  Answers-pure a p = record { at = λ db. (a, refl, p) }

  pub Answers-bind :
      {B : Type 0} {m : M B} {f : B → M A} (Q : B → Type 0)
      → Answers m Q
      → ((b : B) → Q b → Answers (f b) P)
      → Answers (m >>= f) P
  unfolding ◌>>=◌
  Answers-bind {B} {m} {f} Q first rest = record {
    at = λ db. let r = first.at db in rw r.1 ((rest r.0 r.2).at (m db).1);
  }

abbrev pub Any : {A : Type 0} → A → Type 0
Any a = Unit {0}

pub Answers-attempt : {A : Type 0} (m : M A) → Answers (attempt_of m) Any
unfolding attempt_of
Answers-attempt m = record { at = λ db. ((m db).0, refl, tt) }

pub Answers-gets : {A : Type 0} (f : Db → A) → Answers (gets f) Any
unfolding gets
Answers-gets f = record { at = λ db. (f db, refl, tt) }

Answers-execute :
    (s : Services) (name : Text) (r : Result PipelineError (Context Value))
    → Answers (execute_with s name r) Any
unfolding answer_of
Answers-execute s name (ok context) = record { at = λ db. (_, refl, tt) }
Answers-execute s name (err e) = Answers-pure _ tt

pub attempts-count :
    (i id : ℕ) (attempts : Attempts)
    → get_recovery_attempts i (count_attempt id attempts) ≡ (
        if id == i
        then suc (get_recovery_attempts i attempts)
        else get_recovery_attempts i attempts)
unfolding get_recovery_attempts
attempts-count i id attempts = elim (Bool-cases (id == i)) [
  | inl same ↦
      rw (get-insert id i (suc (get_recovery_attempts id attempts)) attempts, same)
        (ap (λ j. suc (get_recovery_attempts j attempts)) (==→eq id i same))
  | inr other ↦ rw (get-insert id i (suc (get_recovery_attempts id attempts)) attempts, other) refl
]

attempts-remove :
    (i id : ℕ) (attempts : Attempts)
    → (id == i) ≡ false
    → get_recovery_attempts i (remove id attempts) ≡ get_recovery_attempts i attempts
unfolding get_recovery_attempts
attempts-remove i id attempts other = rw (get-remove id i attempts, other) refl

module _ (s : Services) (config : CronRecoveryConfig) (i : ℕ) where
  -- The execution has used up its attempts.
  abbrev pub Spent : Attempts → Type 0
  Spent attempts = config.max_recovery_attempts ≤ get_recovery_attempts i attempts

  abbrev StaysSpent : M Answer → Type 0
  StaysSpent m = Answers m (λ a. Spent a.1)

  recovered-stays :
      (e : CronExecution) (attempts : Attempts)
      → (e.id == i) ≡ false
      → Spent attempts
      → (r : Result PipelineError ℕ) → StaysSpent (recovered s config e attempts r)
  recovered-stays e attempts other h (err x) = Answers-pure _ h
  recovered-stays e attempts other h (ok p) =
      Answers-bind Any (Answers-attempt _)
        (λ b q. Answers-pure _ (rw (attempts-remove i e.id attempts other) h))

  on_schedule-stays :
      (e : CronExecution) (attempts : Attempts)
      → (e.id == i) ≡ false
      → Spent attempts
      → (r : Result ValidationError CronSchedule) → StaysSpent (on_schedule s config e attempts r)
  on_schedule-stays e attempts other h (err x) = Answers-pure _ h
  on_schedule-stays e attempts other h (ok c) =
      elim (Bool-cases (not config.recover_disabled_schedules && not c.enabled)) [
        | inl skipped ↦ rw skipped (Answers-pure _ h)
        | inr active ↦ rw active (
            Answers-bind Any (Answers-execute s c.workflow_name _)
              (λ r q. recovered-stays e attempts other h r))
      ]

  try_recovery-stays :
      (e : CronExecution) (attempts : Attempts)
      → (e.id == i) ≡ false
      → Spent attempts
      → StaysSpent (try_recovery s config e attempts)
  try_recovery-stays e attempts other h =
      elim (Bool-cases (ltb config.max_recovery_attempts (get_recovery_attempts e.id attempts))) [
        | inl spent ↦ rw spent (Answers-pure _ h)
        | inr left ↦
            rw left
              (Answers-bind Any (Answers-attempt _) (λ r q. on_schedule-stays e attempts other h r))
      ]

  -- An execution that is not tried again, and one that is.
  recover-Spent :
      (e : CronExecution) (attempts : Attempts)
      → (e.id == i) ≡ true
      → Spent attempts
      → (db : Db)
      → (a : Attempts) × (recover_execution s config e attempts db ≡ (ok (ok tt, a), db)) × Spent a
  unfolding recover_execution gets pure ◌>>=◌
  recover-Spent e attempts mine h db =
      let id = ==→eq e.id i mine in
      let counted = count_attempt e.id attempts in
      let c : get_recovery_attempts i counted ≡ suc (get_recovery_attempts i attempts) =
        attempts-count i e.id attempts ∙ rw mine refl in
      let c' = ap (λ j. get_recovery_attempts j counted) id ∙ c in
      let over : ltb config.max_recovery_attempts (get_recovery_attempts e.id counted) ≡ true =
        ground arith in
      elim (Bool-cases
        (ltb (e.scheduled_time + config.max_recovery_age) (db.world.clock db.calls))) [
          | inl old ↦ rw old (attempts, refl, h)
          | inr young ↦ rw (young, over) (counted, refl, omega arith)
        ]

  recover_execution-stays :
      (e : CronExecution) (attempts : Attempts)
      → Spent attempts
      → StaysSpent (recover_execution s config e attempts)
  unfolding recover_execution
  recover_execution-stays e attempts h = elim (Bool-cases (e.id == i)) [
    | inl mine ↦ record {
      at = λ db.
          let r = recover-Spent e attempts mine h db in ((ok tt, r.0), ap (λ x. x.0) r.1, r.2);
    }
    | inr other ↦ Answers-bind Any (Answers-gets _) (λ at q.
        elim (Bool-cases (ltb (e.scheduled_time + config.max_recovery_age) at)) [
          | inl old ↦ rw old (Answers-pure _ h)
          | inr young ↦ rw young (
              try_recovery-stays e (count_attempt e.id attempts) other
                (rw (attempts-count i e.id attempts, other) h))
        ])
  ]

  recover_executions-stays :
      (es : List CronExecution) (attempts : Attempts)
      → Spent attempts
      → Answers (recover_executions s config es attempts) Spent
  unfolding recover_executions
  recover_executions-stays [] attempts h = Answers-pure attempts h
  recover_executions-stays (e ∷ es) attempts h =
      Answers-bind (λ a. Spent a.1) (recover_execution-stays e attempts h)
        (λ r k. recover_executions-stays es r.1 k)

  check-stays :
      (attempts : Attempts)
      → Spent attempts
      → StaysSpent (check_and_recover_lost_executions s config attempts)
  unfolding check_and_recover_lost_executions
  check-stays attempts h = Answers-bind Any (Answers-attempt _) go
    where
      go :
          (r : Result ValidationError (List CronExecution))
          → Any r
          → StaysSpent (on_lost s config attempts r)
      go (err e) q = Answers-pure _ h
      go (ok es) q =
          Answers-bind Spent (recover_executions-stays es attempts h)
            (λ after k. Answers-pure (ok tt, after) k)

  -- The attempts after an answer.
  abbrev pub attempts_after : Attempts → Result ValidationError Answer → Attempts
  attempts_after attempts (ok a) = a.1
  attempts_after attempts (err e) = attempts

  -- The checks of the loop, each at the database that it finds.
  abbrev pub after_checks : List Db → Attempts → Attempts
  after_checks [] attempts = attempts
  after_checks (db ∷ dbs) attempts =
      after_checks dbs
        (attempts_after attempts (check_and_recover_lost_executions s config attempts db).0)

  checks-stay :
      (dbs : List Db) (attempts : Attempts) → Spent attempts → Spent (after_checks dbs attempts)
  checks-stay [] attempts h = h
  checks-stay (db ∷ dbs) attempts h =
      let r = (check-stays attempts h).at db in checks-stay dbs _ (rw r.1 r.2)

-- An execution that has used up its attempts is given up: after any number of further checks,
-- whatever databases they find and whatever else they recover, its recovery still answers without
-- an error and leaves the database as it is, so the workflow is not run again for it.
pub check_and_recover-gives_up :
    (s : Services) (config : CronRecoveryConfig) (e : CronExecution) (dbs : List Db)
    (attempts : Attempts) (db : Db)
    → config.max_recovery_attempts ≤ get_recovery_attempts e.id attempts
    → (a : Attempts) × (recover_execution s config e (after_checks s config e.id dbs attempts) db
        ≡ (ok (ok tt, a), db))
      × (config.max_recovery_attempts ≤ get_recovery_attempts e.id a)
check_and_recover-gives_up s config e dbs attempts db h =
    recover-Spent s config e.id e _ (==_refl e.id) (checks-stay s config e.id dbs attempts h) db
