-- ===== src/Cron/Passes.antt =====
-- The audit records and the hand-offs of a list of times: the loop of
-- crates/cloacina/src/cron_scheduler.rs.
use mathlib.Core.List.{append-nil}
use cloacina.Common.{
  ℕ, ◌≡◌, refl, sym, ap, subst, ◌∙◌, Bool, List, [], ◌∷◌, Text, Result, ok, err, Bool-cases, inl,
  inr, arith, nat_eq, text_eq, text_beq, some,
}
use cloacina.Common.Dict
use cloacina.Common.Tables.{update_by}
use cloacina.Context
use cloacina.Context.{Context}
use cloacina.Store.CronRows.{CronSchedule, CronExecution}
use cloacina.Store.CronExecutions
use cloacina.Store.CronExecutions.{update_pipeline_execution_id}
use cloacina.Store.Keeps.{
  Order, Keeps, Keeps-pure, Keeps-bind, Keeps-then, Keeps-attempt, Keeps-connect, Keeps-gets,
}
use cloacina.Store.Monad.{Db, connect, write_if, pure, attempt_of, ◌>>=◌, ◌>>◌}
use cloacina.Executor.Values.{Value}
use cloacina.Cron.Scheduler.{
  Services, PipelineError, answer_of, insert_all, schedule_entries, execute_workflow,
  create_execution_audit, complete_execution_audit, finish_audit, run_audited, run_times,
}
use cloacina.Cron.Audits.{audited, create-Creation}
use cloacina.Cron.Fates.{
  with_calls, hand_over, skipped, recorded, handed, hand_off, Explained, Passed, Passed-cons,
}

-- The same schedules and times have records, and nothing was handed off.
unfoldable SameCron : Db → Db → Type 0
SameCron a b =
    (audited b.cron_executions ≡ audited a.cron_executions)
    × (b.world ≡ a.world)
    × (b.schedules ≡ a.schedules)

SameCron-Order : Order SameCron
unfolding SameCron connect
SameCron-Order = record {
  same = λ db. (refl, refl, refl);
  trans = λ p q. (q.0 ∙ p.0, q.1 ∙ p.1, q.2 ∙ p.2);
  after_connect = λ db. (refl, refl, refl);
}

audited-update_by :
    (p : CronExecution → Bool) (i at : ℕ) (rows : List CronExecution)
    → audited (update_by p (λ e. record e { pipeline_execution_id = some i; updated_at = at }) rows)
      ≡ audited rows
unfolding update_by
audited-update_by p i at [] = refl
audited-update_by p i at (e ∷ rows) = ground (arith, audited-update_by p i at rows)

write_if-SameCron :
    (allowed : Db → Bool) (f : Db → Db)
    → ((db : Db) → SameCron db (f db))
    → Keeps SameCron (write_if allowed f)
unfolding write_if
write_if-SameCron allowed f h = record {
  at = λ db. elim (Bool-cases (allowed db)) [
    | inl granted ↦ rw granted (h db)
    | inr denied ↦ rw denied (SameCron-Order.same db)
  ];
}

update_pipeline-SameCron : (i p : ℕ) → Keeps SameCron (update_pipeline_execution_id i p)
unfolding update_pipeline_execution_id SameCron
update_pipeline-SameCron i p =
    let o = SameCron-Order in
    Keeps-then o (Keeps-connect o) (
      Keeps-bind o (Keeps-gets o _) (λ at.
        write_if-SameCron _ _ (λ db. (audited-update_by _ p at db.cron_executions, refl, refl))))

-- A call of the pipeline executor is on record as handed off, whatever it answers. The executor
-- writes neither cron table and is no part of the world's faults.
abbrev pub Executes : Services → Type 0
Executes s =
    (name : Text) (context : Context Value) (db : Db)
    → (audited (s.execute name context db).1.cron_executions ≡ audited db.cron_executions)
      × ((s.execute name context db).1.schedules ≡ db.schedules)
      × ((s.execute name context db).1.world ≡ hand_over db.world ((name, context) ∷ []))

module _ (s : Services) (executes : Executes s) (schedule : CronSchedule) where
  -- The four entries have different keys.
  entries_ok :
      (t : ℕ)
      → insert_all s (schedule_entries s schedule t) Context.new
        ≡ ok (Context.from_data (schedule_entries s schedule t))
  unfolding insert_all Context.insert Dict.insert Dict.get text_beq
  entries_ok t = refl

  finish-SameCron : (i : ℕ) (r : Result PipelineError ℕ) → Keeps SameCron (finish_audit s i r)
  unfolding complete_execution_audit
  finish-SameCron i (ok p) =
      let o = SameCron-Order in
      Keeps-bind o (Keeps-attempt o (update_pipeline-SameCron i p)) (λ _. Keeps-pure o tt)
  finish-SameCron i (err e) = Keeps-pure SameCron-Order tt

  -- Neither answer of the executor ends the loop.
  finish-goes_on :
      (i : ℕ) (r : Result PipelineError ℕ) (db : Db) → (finish_audit s i r db).0 ≡ ok tt
  unfolding attempt_of pure ◌>>=◌
  finish-goes_on i (ok p) db = refl
  finish-goes_on i (err e) db = refl

  abbrev executed : ℕ → Db → Result PipelineError ℕ × Db
  executed t db = s.execute schedule.workflow_name (hand_off s schedule t).1 db

  -- A time that has its record is handed off.
  run_audited-run :
      (t i : ℕ) (db : Db)
      → run_audited s schedule t (ok i) db ≡ finish_audit s i (executed t db).0 (executed t db).1
  unfolding execute_workflow answer_of ◌>>=◌
  run_audited-run t i db = rw (entries_ok t) refl

  pub run_times-Passed :
      (ts : List ℕ) (db : Db) → Passed s schedule ts db (run_times s schedule ts db).1
  unfolding run_times create_execution_audit attempt_of pure ◌>>=◌ ◌>>◌ SameCron
  run_times-Passed [] db =
      ([], refl, sym (append-nil _), ap (with_calls db.world) (sym (append-nil _)), refl, tt)
  run_times-Passed (t ∷ ts) db = elim (create-Creation schedule.id t db) [
    | inl (row, e, a, (w, c)) ↦
        let made = (CronExecutions.create schedule.id t db).1 in
        let x = executed t made in
        let call = executes schedule.workflow_name (hand_off s schedule t).1 made in
        let finish = (finish-SameCron row.id x.0).at x.1 in
        let mid = (finish_audit s row.id x.0 x.1).1 in
        rw (e, run_audited-run t row.id made, finish-goes_on row.id x.0 x.1)
          (Passed-cons s schedule t handed ts db mid (run_times s schedule ts mid).1
            (finish.0 ∙ call.0 ∙ a)
            (finish.1 ∙ call.2 ∙ ap (λ v. hand_over v (hand_off s schedule t ∷ [])) w)
            (finish.2 ∙ call.1 ∙ c) tt (run_times-Passed ts mid))
    | inr (inl (e, failed, a, (w, c), why)) ↦
        let mid = (CronExecutions.create schedule.id t db).1 in
        rw failed (
          Passed-cons s schedule t skipped ts db mid (run_times s schedule ts mid).1
            (a ∙ sym (append-nil _)) (w ∙ ap (with_calls db.world) (sym (append-nil _))) c
            (subst (λ xs. Explained s schedule db.world db.schedules xs (t, skipped)) (sym a) why)
            (run_times-Passed ts mid))
    | inr (inr (e, failed, a, (w, c), f)) ↦
        let mid = (CronExecutions.create schedule.id t db).1 in
        rw failed (
          Passed-cons s schedule t recorded ts db mid (run_times s schedule ts mid).1 a
            (w ∙ ap (with_calls db.world) (sym (append-nil _))) c f (run_times-Passed ts mid))
  ]
