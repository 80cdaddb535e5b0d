-- ===== src/Scheduler/Cancelling.antt =====
-- A cancelled execution and the scheduling loop.
use cloacina.Common.{
  ℕ, suc, ==→eq, ◌≡◌, refl, ap, ◌∙◌, subst, List, [], ◌∷◌, Option, ok, Bool, true, false, ◌&&◌, not,
  mem, All, All-map, filter, map, is_empty, arith, nat_eq, ◌==◌, Bool-cases, inl, inr,
  if◌then◌else◌,
}
use cloacina.Store.Rows.{TaskExecution, PipelineExecution, status_eq}
use cloacina.Store.Monad.{Db, pure, connect, gets, modify, ◌>>=◌, ◌>>◌}
use cloacina.Store.Keeps.{bind_at, Keeps-pure}
use cloacina.Store.Frame.{others, Untouched, Untouched-Order, SameTasks, SameTasks-Order}
use cloacina.Store.PipelineFrame.{cancel-SameTasks}
use cloacina.Store.Queries.{is_pending}
use cloacina.Store.Pipelines
use cloacina.Store.Pipelines.{cancel, set_cancelled, is_active, update_pipeline_where}
use cloacina.Scheduler.Rules.{Json}
use cloacina.Scheduler.Contexts.{Registry}
use cloacina.Scheduler.State.{Dispatch}
use cloacina.Scheduler.Loop.{process_pipelines_batch, process_active_pipelines}
use cloacina.Scheduler.Reads.{get_active_executions-Keeps}
use cloacina.Scheduler.Safety.{ConfinedOption, pending_batch-All, batch-Untouched}

abbrev elsewhere : ℕ → TaskExecution → Bool
elsewhere i t = not (t.pipeline_execution_id == i) && is_pending t.status

-- The ids of the rows that wait for their turn in other executions.
abbrev pub pending_elsewhere : ℕ → List TaskExecution → List ℕ
pending_elsewhere i rows = map (λ t. t.id) (filter (elsewhere i) rows)

elsewhere-All :
    (i : ℕ) (rows : List TaskExecution)
    → All (λ t. elsewhere i t ≡ true → mem t.id (pending_elsewhere i rows) ≡ true) rows
elsewhere-All i [] = tt
elsewhere-All i (x ∷ rows) =
    (λ p. ground arith, All-map rows (λ t h p. ground (arith, h p)) (elsewhere-All i rows))

abbrev active_ids : List PipelineExecution → List ℕ
active_ids ps = map (λ p. p.id) (filter (λ p. is_active p.status) ps)

cancelled-inactive :
    (i at : ℕ) (ps : List PipelineExecution)
    → mem i (active_ids (update_pipeline_where i (set_cancelled at) ps)) ≡ false
unfolding update_pipeline_where
cancelled-inactive i at [] = refl
cancelled-inactive i at (p ∷ ps) = elim (Bool-cases (p.id == i)) [
  | inl here ↦ rw here (cancelled-inactive i at ps)
  | inr there ↦ elim (Bool-cases (is_active p.status)) [
    | inl active ↦ rw (there, active, there) (cancelled-inactive i at ps)
    | inr ended ↦ rw (there, ended) (cancelled-inactive i at ps)
  ]
]

mem_apart : (i j : ℕ) (is : List ℕ) → mem i is ≡ false → mem j is ≡ true → (j == i) ≡ false
mem_apart i j is absent m = elim (Bool-cases (j == i)) [
  | inl same ↦ let e : j ≡ i = ==→eq j i same in absurd (cc)
  | inr other ↦ other
]

-- The executions that a round finds after a cancellation that succeeded.
active-without :
    (i : ℕ) (db : Db) {ps : List PipelineExecution}
    → (cancel i db).0 ≡ ok tt
    → (Pipelines.get_active_executions (cancel i db).1).0 ≡ ok ps
    → mem i (map (λ p. p.id) ps) ≡ false
unfolding cancel Pipelines.get_active_executions connect gets modify pure ◌>>=◌ ◌>>◌
active-without i db {ps} done h = elim (Bool-cases (db.world.fault db.calls)) [
  | inl down ↦ absurd (ground arith)
  | inr up ↦ elim (Bool-cases (db.world.fault (suc db.calls))) [
    | inl lost ↦ absurd (ground arith)
    | inr found ↦
        let at = db.world.clock (suc db.calls) in
        let e : filter (λ p. is_active p.status)
              (update_pipeline_where i (set_cancelled at) db.pipelines)
            ≡ ps =
          ground arith in
        subst (λ qs. mem i (map (λ p. p.id) qs) ≡ false) e (cancelled-inactive i at db.pipelines)
  ]
]

module _ (json : Json) (registry : Registry) (dispatcher : Option Dispatch)
    (confined : ConfinedOption dispatcher) where
  -- A batch without the execution `i`.
  batch_without :
      (i : ℕ) (ps : List PipelineExecution) (db : Db)
      → mem i (map (λ p. p.id) ps) ≡ false
      → Untouched
          (pending_elsewhere i db.tasks)
          db
          (process_pipelines_batch json registry dispatcher ps db).1
  batch_without i ps db absent =
      batch-Untouched json registry dispatcher confined (pending_elsewhere i db.tasks) ps db
        (λ ts e.
          pending_batch-All _ (map (λ q. q.id) ps) db
            (All-map db.tasks
              (λ t k m.
                ground (arith, k, mem_apart i t.pipeline_execution_id (map (λ q. q.id) ps) absent))
              (elsewhere-All i db.tasks))
            e)

  -- A cancelled execution stands still: after a cancellation that succeeds, a round of the
  -- scheduling loop, whatever faults it meets, writes no row but those that wait for their turn in
  -- other executions, if the dispatcher writes no row but that of the task it is handed.
  pub cancel-stops :
      (i : ℕ) (db : Db)
      → (cancel i db).0 ≡ ok tt
      → others
          (pending_elsewhere i db.tasks)
          (process_active_pipelines json registry dispatcher (cancel i db).1).1.tasks
        ≡ others (pending_elsewhere i db.tasks) db.tasks
  unfolding process_active_pipelines Untouched SameTasks
  cancel-stops i db done =
      let c = (cancel i db).1 in
      let ids = pending_elsewhere i db.tasks in
      let same : c.tasks ≡ db.tasks = (cancel-SameTasks i).at db in
      let o = Untouched-Order ids in
      bind_at o Pipelines.get_active_executions _ c ((get_active_executions-Keeps o).at c) (λ ps e.
        after i db ps (Pipelines.get_active_executions c).1
          ((get_active_executions-Keeps SameTasks-Order).at c ∙ same) (active-without i db done e))
      ∙ ap (others ids) same
    where
      after :
          (i : ℕ) (db : Db) (ps : List PipelineExecution) (db' : Db)
          → db'.tasks ≡ db.tasks
          → mem i (map (λ p. p.id) ps) ≡ false
          → Untouched
              (pending_elsewhere i db.tasks)
              db'
              ((if is_empty ps
                  then pure tt
                  else process_pipelines_batch json registry dispatcher ps)
                db').1
      after i db [] db' same absent =
          (Keeps-pure (Untouched-Order (pending_elsewhere i db.tasks)) tt).at db'
      after i db (p ∷ ps) db' same absent =
          subst
            (λ rows.
              Untouched (pending_elsewhere i rows) db'
                (process_pipelines_batch json registry dispatcher (p ∷ ps) db').1)
            same (batch_without i (p ∷ ps) db' absent)
