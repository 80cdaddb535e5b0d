-- ===== src/Scheduler/RecoveryBound.antt =====
-- How often a task is recovered.
use cloacina.Common.{
  ℕ, ◌≡◌, refl, List, [], ◌∷◌, Bool, true, false, not, ◌||◌, all, arith, ◌==◌, nat_eq, Bool-cases,
  inl, inr, Text, leb,
}
use cloacina.Store.Rows.{TaskExecution, NewRecoveryEvent, status_eq}
use cloacina.Store.Monad.{Db, connect, gets, modify, ◌>>=◌, ◌>>◌}
use cloacina.Store.Keeps.{
  Order, Keeps, Keeps-then, Keeps-bind, Keeps-connect, Keeps-gets, Keeps-pure, then_at,
}
use cloacina.Store.Tasks.{
  update_where, set_abandoned, set_recovered, mark_abandoned, reset_task_for_recovery,
}
use cloacina.Store.Pipelines
use cloacina.Scheduler.Reads.{check_pipeline_failure-Keeps}
use cloacina.Scheduler.Recovery.{
  recovered, abandoned, max_recovery_attempts, fail_pipeline, record_recovery_event,
  abandon_task_permanently, recover_single_task,
}

-- Every row counts three recoveries at most.
unfoldable pub bounded : List TaskExecution → Bool
bounded rows = all (λ t. leb t.recovery_attempts max_recovery_attempts) rows

unfoldable StaysBounded : Db → Db → Type 0
StaysBounded a b = bounded a.tasks ≡ true → bounded b.tasks ≡ true

StaysBounded-Order : Order StaysBounded
unfolding StaysBounded connect
StaysBounded-Order = record {
  same = λ db h. h;
  trans = λ p q h. q (p h);
  after_connect = λ db h. h;
}

bounded-abandoned :
    (id at : ℕ) (reason : Text) (rows : List TaskExecution)
    → bounded rows ≡ true
    → bounded (update_where id (set_abandoned reason at) rows) ≡ true
unfolding bounded update_where set_abandoned
bounded-abandoned id at reason [] h = refl
bounded-abandoned id at reason (t ∷ rows) h = ground (arith, bounded-abandoned id at reason rows)

-- The row that the recovery read is the row in the table.
unfoldable pub agrees : TaskExecution → List TaskExecution → Bool
agrees task rows =
    all (λ t. not (t.id == task.id) || (t.recovery_attempts == task.recovery_attempts)) rows

bounded-recovered :
    (task : TaskExecution) (at : ℕ) (rows : List TaskExecution)
    → agrees task rows ≡ true
    → leb max_recovery_attempts task.recovery_attempts ≡ false
    → bounded rows ≡ true
    → bounded (update_where task.id (set_recovered at) rows) ≡ true
unfolding bounded update_where set_recovered agrees
bounded-recovered task at [] a few h = refl
bounded-recovered task at (t ∷ rows) a few h = ground (arith, bounded-recovered task at rows)

abandon-StaysBounded : (id : ℕ) (reason : Text) → Keeps StaysBounded (mark_abandoned id reason)
unfolding mark_abandoned StaysBounded modify
abandon-StaysBounded id reason =
    let o = StaysBounded-Order in
    Keeps-then o (Keeps-connect o) (
      Keeps-bind o (Keeps-gets o _)
        (λ at. record { at = λ db. bounded-abandoned id at reason db.tasks }))

mark_failed-StaysBounded :
    (id : ℕ) (reason : Text) → Keeps StaysBounded (Pipelines.mark_failed id reason)
unfolding Pipelines.mark_failed StaysBounded modify
mark_failed-StaysBounded id reason =
    let o = StaysBounded-Order in
    Keeps-then o (Keeps-connect o) (Keeps-bind o (Keeps-gets o _) (λ at. record { at = λ db h. h }))

event-StaysBounded : (e : NewRecoveryEvent) → Keeps StaysBounded (record_recovery_event e)
unfolding record_recovery_event StaysBounded modify
event-StaysBounded e =
    let o = StaysBounded-Order in Keeps-then o (Keeps-connect o) (record { at = λ db h. h })

fail-StaysBounded : (task : TaskExecution) (b : Bool) → Keeps StaysBounded (fail_pipeline task b)
unfolding fail_pipeline
fail-StaysBounded task false = Keeps-pure StaysBounded-Order tt
fail-StaysBounded task true = mark_failed-StaysBounded _ _

abandon_task-StaysBounded :
    (task : TaskExecution) → Keeps StaysBounded (abandon_task_permanently task)
unfolding abandon_task_permanently
abandon_task-StaysBounded task =
    let o = StaysBounded-Order in
    Keeps-then o (abandon-StaysBounded _ _) (
      Keeps-bind o (check_pipeline_failure-Keeps o _)
        (λ b. Keeps-then o (fail-StaysBounded task b) (event-StaysBounded _)))

reset-StaysBounded :
    (task : TaskExecution) (db : Db)
    → agrees task db.tasks ≡ true
    → leb max_recovery_attempts task.recovery_attempts ≡ false
    → StaysBounded db (reset_task_for_recovery task.id db).1
unfolding reset_task_for_recovery connect gets modify ◌>>=◌ ◌>>◌ StaysBounded
reset-StaysBounded task db a few h = elim (Bool-cases (db.world.fault db.calls)) [
  | inl down ↦ rw down h
  | inr up ↦ rw up (bounded-recovered task _ db.tasks a few h)
]

-- If no row counts more than three recoveries, then none does after the recovery of a task,
-- whichever calls to the database fail on the way. The recovery acts on the row as it is stored.
pub recover_single_task-bounded :
    (task : TaskExecution) (db : Db)
    → agrees task db.tasks ≡ true
    → bounded db.tasks ≡ true
    → bounded (recover_single_task task db).1.tasks ≡ true
unfolding recover_single_task StaysBounded
recover_single_task-bounded task db a h =
    elim (Bool-cases (leb max_recovery_attempts task.recovery_attempts)) [
      | inl many ↦
          let o = StaysBounded-Order in
          rw many
            ((Keeps-bind o (abandon_task-StaysBounded task) (λ _. Keeps-pure o abandoned)).at db h)
      | inr few ↦
          let o = StaysBounded-Order in
          rw few (
            then_at o (reset_task_for_recovery task.id) _ db (reset-StaysBounded task db a few)
              (Keeps-then o (event-StaysBounded _) (Keeps-pure o recovered)) h)
    ]
