-- ===== src/Scheduler/Safety.antt =====
-- What a round of the scheduling loop may write.
use cloacina.Common.{
  ℕ, ◌≡◌, subst, ok-injective, List, [], ◌∷◌, Option, none, some, ok, Bool, true, ◌&&◌, mem, All,
  All-map, filter, map, is_empty, arith, nat_eq, Bool-cases, inl, inr, if◌then◌else◌,
}
use cloacina.Common.Dict
use cloacina.Store.Rows.{TaskExecution, PipelineExecution, status_eq}
use cloacina.Store.Monad.{Db, pure, connect, gets, ◌>>=◌, ◌>>◌}
use cloacina.Store.Keeps.{Keeps, Keeps-bind, Keeps-pure, Keeps-attempt, bind_at}
use cloacina.Store.Frame.{
  others, Untouched, Untouched-Order, SameTasks, SameTasks-Order, SameTasks-Untouched,
  mark_ready-Untouched, mark_skipped-Untouched,
}
use cloacina.Store.PipelineFrame.{update_final_context-SameTasks, mark_completed-SameTasks}
use cloacina.Store.Queries.{is_pending, get_pending_tasks_batch}
use cloacina.Store.Pipelines
use cloacina.Scheduler.Rules.{Json}
use cloacina.Scheduler.Contexts.{Registry}
use cloacina.Scheduler.State.{Dispatch, TaskReadyEvent, dispatch_with}
use cloacina.Scheduler.Loop.{group_tasks, process_pipelines_batch, process_active_pipelines}
use cloacina.Scheduler.Reads.{get_active_executions-Keeps, get_pending_tasks_batch-Keeps}
use cloacina.Scheduler.Writes.{update_pipeline-Keeps}
use cloacina.Scheduler.Rounds.{process_pipelines-Keeps, group_tasks-All}

-- The tasks that the scheduler may move: those not started or pending.
abbrev pub pending_ids : List TaskExecution → List ℕ
pending_ids rows = map (λ t. t.id) (filter (λ t. is_pending t.status) rows)

-- A dispatcher that writes no task row but the dispatched one.
abbrev pub Confined : Dispatch → Type 0
Confined dispatch =
    (ids : List ℕ) (event : TaskReadyEvent)
    → mem event.task_execution_id ids ≡ true
    → Keeps (Untouched ids) (dispatch event)

abbrev pub ConfinedOption : Option Dispatch → Type 0
ConfinedOption none = Unit
ConfinedOption (some dispatch) = Confined dispatch

no-group : (i : ℕ) {l : List TaskExecution} → Dict.get i [] ≡ some l → ⊥
no-group i h = ground (arith, Dict.get-nil {V = List TaskExecution} i)

dispatch_with-Untouched :
    (dispatcher : Option Dispatch)
    → ConfinedOption dispatcher
    → (ids : List ℕ) (t : TaskExecution) → mem t.id ids ≡ true
    → Keeps (Untouched ids) (dispatch_with dispatcher t)
unfolding dispatch_with
dispatch_with-Untouched none c ids t m = Keeps-pure (Untouched-Order ids) tt
dispatch_with-Untouched (some dispatch) c ids t m =
    let o = Untouched-Order ids in Keeps-bind o (Keeps-attempt o (c ids _ m)) (λ _. Keeps-pure o tt)

pending_ids-All :
    (rows : List TaskExecution)
    → All (λ t. is_pending t.status ≡ true → mem t.id (pending_ids rows) ≡ true) rows
pending_ids-All [] = tt
pending_ids-All (x ∷ rows) =
    (λ p. ground arith, All-map rows (λ t h p. ground (arith, h p)) (pending_ids-All rows))

All-filter :
    (p : TaskExecution → Bool) (Q : TaskExecution → Type 0) (rows : List TaskExecution)
    → All (λ t. p t ≡ true → Q t) rows
    → All Q (filter p rows)
All-filter p Q [] h = tt
All-filter p Q (x ∷ rows) h = elim (Bool-cases (p x)) [
  | inl holds ↦ rw holds (h.0 holds, All-filter p Q rows h.1)
  | inr fails ↦ rw fails (All-filter p Q rows h.1)
]

-- What holds of each pending row of the pipelines holds of each row of the batch.
pub pending_batch-All :
    (Q : TaskExecution → Type 0) (is : List ℕ) (db : Db) {ts : List TaskExecution}
    → All (λ t. (mem t.pipeline_execution_id is && is_pending t.status) ≡ true → Q t) db.tasks
    → (get_pending_tasks_batch is db).0 ≡ ok ts
    → All Q ts
unfolding get_pending_tasks_batch connect gets pure ◌>>=◌ ◌>>◌
pending_batch-All Q [] db {ts} each h = subst (All Q) (ok-injective h) tt
pending_batch-All Q (i ∷ is) db {ts} each h = elim (Bool-cases (db.world.fault db.calls)) [
  | inl down ↦ absurd (ground arith)
  | inr up ↦
      let picked =
        λ (t : TaskExecution). mem t.pipeline_execution_id (i ∷ is) && is_pending t.status in
      let e : filter picked db.tasks ≡ ts = ground arith in
      subst (All Q) e (All-filter picked Q db.tasks each)
]

module _ (json : Json) (registry : Registry) (dispatcher : Option Dispatch)
    (confined : ConfinedOption dispatcher) where
  pub batch-Untouched :
      (ids : List ℕ) (ps : List PipelineExecution) (db : Db)
      → ((ts : List TaskExecution)
          → (get_pending_tasks_batch (map (λ p. p.id) ps) db).0 ≡ ok ts
          → All (λ t. mem t.id ids ≡ true) ts)
      → Untouched ids db (process_pipelines_batch json registry dispatcher ps db).1
  unfolding process_pipelines_batch
  batch-Untouched ids ps db within =
      let o = Untouched-Order ids in
      bind_at o (get_pending_tasks_batch (map (λ p. p.id) ps)) _ db
        ((get_pending_tasks_batch-Keeps o _).at db)
        (λ ts e.
          (process_pipelines-Keeps o
              (λ i c. SameTasks-Untouched ids (update_final_context-SameTasks i c))
              (λ i. SameTasks-Untouched ids (mark_completed-SameTasks i)) json registry dispatcher
              (All (λ t. mem t.id ids ≡ true))
              (update_pipeline-Keeps o json registry dispatcher ids (mark_ready-Untouched ids)
                (λ i r m. mark_skipped-Untouched ids i m r)
                (dispatch_with-Untouched dispatcher confined ids))
              (group_tasks ts [])
              (group_tasks-All _ ts [] (within ts e) (λ i l h. absurd (no-group i h))) ps).at
            _)

  -- A round of the scheduling loop, whatever faults it meets, writes no row of a task that was
  -- neither not started nor pending when the round began: ready, running and ended tasks stay as
  -- they are, if the dispatcher writes no row but that of the task it is handed.
  pub process_active_pipelines-frame :
      (db : Db)
      → others (pending_ids db.tasks) (process_active_pipelines json registry dispatcher db).1.tasks
        ≡ others (pending_ids db.tasks) db.tasks
  unfolding process_active_pipelines Untouched SameTasks
  process_active_pipelines-frame db =
      let o = Untouched-Order (pending_ids db.tasks) in
      bind_at o Pipelines.get_active_executions _ db ((get_active_executions-Keeps o).at db)
        (λ ps e.
          after ps (Pipelines.get_active_executions db).1
            ((get_active_executions-Keeps SameTasks-Order).at db))
    where
      after :
          (ps : List PipelineExecution) (db' : Db)
          → SameTasks db db'
          → Untouched
              (pending_ids db.tasks)
              db'
              ((if is_empty ps
                  then pure tt
                  else process_pipelines_batch json registry dispatcher ps)
                db').1
      after [] db' same = (Keeps-pure (Untouched-Order (pending_ids db.tasks)) tt).at db'
      after (p ∷ ps) db' same =
          subst
            (λ rows.
              Untouched (pending_ids rows) db'
                (process_pipelines_batch json registry dispatcher (p ∷ ps) db').1)
            same
            (batch-Untouched (pending_ids db'.tasks) (p ∷ ps) db' (λ ts e.
              pending_batch-All _ (map (λ q. q.id) (p ∷ ps)) db'
                (All-map db'.tasks (λ t k m. k (ground arith)) (pending_ids-All db'.tasks)) e))
