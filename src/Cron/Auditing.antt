-- ===== src/Cron/Auditing.antt =====
-- The audit records and the hand-offs of a schedule that is due.
use cloacina.Common.{
  ℕ, ◌≡◌, ◌⊎◌, refl, ◌∙◌, Bool, true, false, List, [], ◌∷◌, Result, ok, err, inl, inr,
  if◌then◌else◌,
}
use cloacina.Store.CronRows.{CronSchedule}
use cloacina.Store.CronSchedules.{claim_and_update}
use cloacina.Store.Keeps.{
  Order, Keeps, Keeps-pure, Keeps-bind, Keeps-then, Keeps-connect, Keeps-gets,
}
use cloacina.Store.Monad.{
  Db, ValidationError, and_then, connect, modify, pure, attempt_of, ◌>>=◌, ◌>>◌,
}
use cloacina.Cron.Scheduler.{
  calculate_next_run, Services, PipelineError, CronSchedulerConfig, run_times,
  calculate_execution_times, is_schedule_active, with_times, process_schedule, on_claim, claim_for,
}
use cloacina.Cron.Audits.{audited}
use cloacina.Cron.Fates.{Passed}
use cloacina.Cron.Passes.{Executes, run_times-Passed}

-- The same schedules and times have records, and nothing was handed off.
unfoldable pub SameAudit : Db → Db → Type 0
SameAudit a b = (audited b.cron_executions ≡ audited a.cron_executions) × (b.world ≡ a.world)

SameAudit-Order : Order SameAudit
unfolding SameAudit connect
SameAudit-Order = record {
  same = λ db. (refl, refl);
  trans = λ p q. (q.0 ∙ p.0, q.1 ∙ p.1);
  after_connect = λ db. (refl, refl);
}

-- The state after an answer is added.
then_pure :
    {A : Type 0} (x : A) (r : Result ValidationError (Unit {0})) (db : Db)
    → (and_then r (λ _. pure x) db).1 ≡ db
unfolding pure
then_pure x (ok u) db = refl
then_pure x (err e) db = refl

module _ (s : Services) (schedule : CronSchedule) where
  claim-SameAudit : (at next : ℕ) → Keeps SameAudit (claim_and_update schedule.id at at next)
  unfolding claim_and_update SameAudit modify
  claim-SameAudit at next =
      let o = SameAudit-Order in
      Keeps-then o (Keeps-connect o) (
        Keeps-bind o (Keeps-gets o _) (λ t.
          Keeps-bind o (Keeps-gets o _)
            (λ n. Keeps-then o (record { at = λ db. (refl, refl) }) (Keeps-pure o _))))

  abbrev pub claimed : ℕ → ℕ → Db → Db
  claimed at next db = (claim_and_update schedule.id at at next db).1

  -- Why there is nothing to do: the schedule is not active, its times or its next run cannot be
  -- computed, it has no times, or the claim is refused or fails.
  abbrev pub Idle : CronSchedulerConfig → ℕ → Db → Type 0
  Idle config at db =
      (is_schedule_active s schedule at ≡ false)
      ⊎ (((e : PipelineError) × (calculate_execution_times s config schedule at ≡ err e))
          ⊎ ((calculate_execution_times s config schedule at ≡ ok [])
              ⊎ (((e : PipelineError) × (calculate_next_run s schedule at ≡ err e))
                  ⊎ ((next : ℕ) × (calculate_next_run s schedule at ≡ ok next)
                      × (((claim_and_update schedule.id at at next db).0 ≡ ok false)
                          ⊎ ((e : ValidationError) × ((claim_and_update schedule.id at at next db).0
                                ≡ err e)))))))

  -- What processing the schedule did: nothing, for a reason, or a pass over all of the execution
  -- times of the schedule, which it claimed.
  abbrev pub Audits : CronSchedulerConfig → ℕ → Db → Db → Type 0
  Audits config at db after =
      (SameAudit db after × Idle config at db)
      ⊎ ((ts : List ℕ) × (next : ℕ) × (calculate_execution_times s config schedule at ≡ ok ts)
          × (calculate_next_run s schedule at ≡ ok next)
          × ((claim_and_update schedule.id at at next db).0 ≡ ok true)
          × SameAudit db (claimed at next db)
          × Passed s schedule ts (claimed at next db) after)

module _ (s : Services) (executes : Executes s) (schedule : CronSchedule) where
  on_claim-Audits :
      (config : CronSchedulerConfig) (at next : ℕ) (ts : List ℕ) (db : Db)
      → calculate_execution_times s config schedule at ≡ ok ts
      → calculate_next_run s schedule at ≡ ok next
      → (r : Result ValidationError Bool) → (claim_and_update schedule.id at at next db).0 ≡ r
      → Audits s schedule config at db (on_claim s schedule ts r (claimed s schedule at next db)).1
  unfolding pure ◌>>◌ ◌>>=◌
  on_claim-Audits config at next ts db e n (err x) h =
      inl ((claim-SameAudit s schedule at next).at db, inr (inr (inr (inr (next, n, inr (x, h))))))
  on_claim-Audits config at next ts db e n (ok false) h =
      inl ((claim-SameAudit s schedule at next).at db, inr (inr (inr (inr (next, n, inl h)))))
  on_claim-Audits config at next ts db e n (ok true) h = inr (
    ts,
    next,
    e,
    n,
    h,
    (claim-SameAudit s schedule at next).at db,
    rw
        (then_pure {A = Result PipelineError (Unit {0})} (ok tt)
          (run_times s schedule ts (claimed s schedule at next db)).0
          (run_times s schedule ts (claimed s schedule at next db)).1)
        (run_times-Passed s executes schedule ts (claimed s schedule at next db)),
  )

  claim_for-Audits :
      (config : CronSchedulerConfig) (at : ℕ) (ts : List ℕ) (db : Db)
      → calculate_execution_times s config schedule at ≡ ok ts
      → (n : Result PipelineError ℕ) → calculate_next_run s schedule at ≡ n
      → Audits s schedule config at db (claim_for s schedule at ts n db).1
  unfolding attempt_of ◌>>=◌ pure
  claim_for-Audits config at ts db e (err x) n =
      inl (SameAudit-Order.same db, inr (inr (inr (inl (x, n)))))
  claim_for-Audits config at ts db e (ok next) n = on_claim-Audits config at next ts db e n _ refl

  with_times-Audits :
      (config : CronSchedulerConfig) (at : ℕ) (db : Db) (r : Result PipelineError (List ℕ))
      → calculate_execution_times s config schedule at ≡ r
      → Audits s schedule config at db (with_times s schedule at r db).1
  unfolding pure
  with_times-Audits config at db (err x) e = inl (SameAudit-Order.same db, inr (inl (x, e)))
  with_times-Audits config at db (ok []) e = inl (SameAudit-Order.same db, inr (inr (inl e)))
  with_times-Audits config at db (ok (t ∷ ts)) e = claim_for-Audits config at (t ∷ ts) db e _ refl

  if_active-Audits :
      (config : CronSchedulerConfig) (at : ℕ) (db : Db) (b : Bool)
      → is_schedule_active s schedule at ≡ b
      → Audits s schedule config at db
          ((if b
              then with_times s schedule at (calculate_execution_times s config schedule at)
              else pure (ok tt))
            db).1
  unfolding pure
  if_active-Audits config at db true active = with_times-Audits config at db _ refl
  if_active-Audits config at db false over = inl (SameAudit-Order.same db, inl over)

-- Processing a schedule adds no audit record and hands nothing off if the schedule is not active,
-- its times or its next run cannot be computed, it has no times, or its claim is refused or fails;
-- otherwise it claims the schedule and passes over its execution times in order. Each time then has
-- one of three fates: it got a record and was handed off, with the schedule's workflow and the
-- context of its four entries; or it got a record only, and some call or statement is not answered;
-- or it got neither, and that is so, or the time has another record, or the schedule is gone. The
-- records and the calls of the executor that were added are those of the fates and no others, so
-- nothing is handed off without a record, also when the executor answers an error. The executor is
-- any that adds no audit record and changes no schedule; each call of it is on the list of calls.
pub process_schedule-Audits :
    (s : Services) (executes : Executes s) (config : CronSchedulerConfig) (schedule : CronSchedule)
    (at : ℕ) (db : Db)
    → Audits s schedule config at db (process_schedule s config schedule at db).1
unfolding process_schedule
process_schedule-Audits s executes config schedule at db =
    if_active-Audits s executes schedule config at db _ refl
