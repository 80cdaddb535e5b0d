-- ===== src/Scheduler/Completion.antt =====
-- When a round of the scheduling loop may complete a pipeline.
use cloacina.Common.{
  ℕ, ◌≡◌, refl, ap, ◌∙◌, List, [], ◌∷◌, Option, none, some, Bool, true, false, not, ◌||◌, all, All,
  All-map, length, mem, ◌⊎◌, inl, inr, Result, ok, err, arith, if◌then◌else◌, Text, ◌==◌, nat_eq,
  map,
}
use cloacina.Common.Dict
use cloacina.Common.Dict.{HashMap}
use cloacina.Store.Rows.{TaskExecution, PipelineExecution}
use cloacina.Store.Monad.{M, Db, ValidationError, and_then, connect, gets, modify, pure, ◌>>=◌}
use cloacina.Store.Keeps.{
  Order, Keeps, Keeps-pure, Keeps-bind, Keeps-attempt, Keeps-then, Keeps-connect, Keeps-gets,
}
use cloacina.Store.Runs.{>>=-ok, >>-ok, gets-ok, pure-ok}
use cloacina.Store.Tasks.{mark_ready, mark_skipped, set_ready, set_skipped, stamp}
use cloacina.Store.Queries.{of_pipeline, is_terminal, incomplete, check_pipeline_completion}
use cloacina.Store.Frame.{SameTasks, SameTasks-Order}
use cloacina.Store.PipelineFrame.{update_final_context-SameTasks, mark_completed-SameTasks}
use cloacina.Scheduler.Rules.{Json}
use cloacina.Scheduler.Contexts.{Registry}
use cloacina.Scheduler.State.{Dispatch, dispatch_with}
use cloacina.Scheduler.Loop.{update_readiness, finish_pipeline, process_pipeline, complete_pipeline}
use cloacina.Scheduler.Reads.{check_pipeline_completion-Keeps}
use cloacina.Scheduler.Writes.{update_pipeline-Keeps}
use cloacina.Scheduler.Rounds.{complete_pipeline-Keeps}

unfoldable pub SamePipelines : Db → Db → Type 0
SamePipelines a b = b.pipelines ≡ a.pipelines

pub SamePipelines-Order : Order SamePipelines
unfolding SamePipelines connect
SamePipelines-Order = record { same = λ db. refl; trans = λ p q. q ∙ p; after_connect = λ db. refl }

-- Every row of the pipeline is completed, failed or skipped.
unfoldable pub all_ended : ℕ → List TaskExecution → Bool
all_ended i rows = all (λ t. not (of_pipeline i t) || is_terminal t.status) rows

incomplete-none :
    (i : ℕ) (rows : List TaskExecution)
    → (length (incomplete i rows) == 0) ≡ true
    → all_ended i rows ≡ true
unfolding incomplete all_ended
incomplete-none i [] h = refl
incomplete-none i (t ∷ rows) h = ground (arith, incomplete-none i rows)

completion-all_ended :
    (i : ℕ) (db : Db) → (check_pipeline_completion i db).0 ≡ ok true → all_ended i db.tasks ≡ true
unfolding check_pipeline_completion connect
completion-all_ended i db h =
    let r =
      >>=-ok (gets (λ db. length (incomplete i db.tasks))) _ (connect db).1
        (>>-ok connect _ db h) in
    let count = gets-ok _ (connect db).1 r.1 in
    incomplete-none i db.tasks (ap (λ n. n == 0) count ∙ pure-ok _ _ r.2)

stamp-SamePipelines :
    (id : ℕ) (f : ℕ → TaskExecution → TaskExecution) → Keeps SamePipelines (stamp id f)
unfolding SamePipelines modify
stamp-SamePipelines id f =
    let o = SamePipelines-Order in
    Keeps-then o (Keeps-connect o)
      (Keeps-bind o (Keeps-gets o _) (λ at. record { at = λ db. refl }))

ready-SamePipelines : (id : ℕ) → Keeps SamePipelines (mark_ready id)
unfolding mark_ready
ready-SamePipelines id = stamp-SamePipelines id set_ready

skipped-SamePipelines : (id : ℕ) (reason : Text) → Keeps SamePipelines (mark_skipped id reason)
unfolding mark_skipped
skipped-SamePipelines id reason = stamp-SamePipelines id (set_skipped reason)

ids-All : (ts : List TaskExecution) → All (λ t. mem t.id (map (λ t. t.id) ts) ≡ true) ts
ids-All [] = tt
ids-All (t ∷ ts) = (ground arith, All-map ts (λ u h. ground (arith, h)) (ids-All ts))

-- A dispatcher that writes no row of a pipeline.
abbrev pub LeavesPipelines : Option Dispatch → Type 0
LeavesPipelines dispatcher = (t : TaskExecution) → Keeps SamePipelines (dispatch_with dispatcher t)

module _ (json : Json) (registry : Registry) (dispatcher : Option Dispatch)
    (leaves : LeavesPipelines dispatcher) where
  readiness-SamePipelines :
      (ts : Option (List TaskExecution))
      → Keeps SamePipelines (update_readiness json registry dispatcher ts)
  unfolding update_readiness
  readiness-SamePipelines none = Keeps-pure SamePipelines-Order _
  readiness-SamePipelines (some ts) =
      let o = SamePipelines-Order in
      Keeps-bind o
        (Keeps-attempt o (
          update_pipeline-Keeps o json registry dispatcher (map (λ t. t.id) ts)
            (λ id m. ready-SamePipelines id) (λ id r m. skipped-SamePipelines id r)
            (λ t m. leaves t) ts (ids-All ts)))
        (λ r. Keeps-pure o _)

  finish-all_ended :
      (p : PipelineExecution) (go_on : Bool) (db : Db)
      → ((finish_pipeline json registry dispatcher p go_on db).1.pipelines ≡ db.pipelines)
        ⊎ (all_ended p.id (finish_pipeline json registry dispatcher p go_on db).1.tasks ≡ true)
  unfolding finish_pipeline ◌>>=◌ pure SameTasks SamePipelines
  finish-all_ended p false db = inl refl
  finish-all_ended p true db = go (check_pipeline_completion p.id db).0 refl
    where
      next : Db
      next = (check_pipeline_completion p.id db).1

      rest : Bool → M Unit
      rest complete = if complete then complete_pipeline p else pure tt

      kept : next.tasks ≡ db.tasks
      kept = (check_pipeline_completion-Keeps SameTasks-Order p.id).at db

      same : next.pipelines ≡ db.pipelines
      same = (check_pipeline_completion-Keeps SamePipelines-Order p.id).at db

      go :
          (r : Result ValidationError Bool)
          → (check_pipeline_completion p.id db).0 ≡ r
          → ((and_then r rest next).1.pipelines ≡ db.pipelines)
            ⊎ (all_ended p.id (and_then r rest next).1.tasks ≡ true)
      go (ok true) e =
          let written =
            (complete_pipeline-Keeps SameTasks-Order update_final_context-SameTasks
                mark_completed-SameTasks p).at
              next in
          inr (ap (all_ended p.id) (written ∙ kept) ∙ completion-all_ended p.id db e)
      go (ok false) e = inl same
      go (err x) e = inl same

  -- Whatever calls to the database fail, the body of the loop for one pipeline either leaves the
  -- table of pipelines as it is, or it leaves every task row of that pipeline completed, failed or
  -- skipped: no pipeline is marked completed, and no final context stored, while a task is open.
  -- The dispatcher is any that writes no pipeline.
  pub process_pipeline-all_ended :
      (groups : HashMap ℕ (List TaskExecution)) (p : PipelineExecution) (db : Db)
      → ((process_pipeline json registry dispatcher groups p db).1.pipelines ≡ db.pipelines)
        ⊎ (all_ended p.id (process_pipeline json registry dispatcher groups p db).1.tasks ≡ true)
  unfolding process_pipeline ◌>>=◌ SamePipelines
  process_pipeline-all_ended groups p db = go (first db).0
    where
      first : M Bool
      first = update_readiness json registry dispatcher (Dict.get p.id groups)

      same : (first db).1.pipelines ≡ db.pipelines
      same = (readiness-SamePipelines (Dict.get p.id groups)).at db

      go :
          (r : Result ValidationError Bool)
          → ((and_then r (finish_pipeline json registry dispatcher p) (first db).1).1.pipelines
              ≡ db.pipelines)
            ⊎ (all_ended p.id
                  (and_then r (finish_pipeline json registry dispatcher p) (first db).1).1.tasks
                ≡ true)
      go (err x) = inl same
      go (ok go_on) = elim (finish-all_ended p go_on (first db).1) [
        | inl kept ↦ inl (kept ∙ same)
        | inr ended ↦ inr ended
      ]
