-- ===== src/Scheduler/Ending.antt =====
-- A pipeline whose tasks have all ended is completed.
use cloacina.Common.{
  ℕ, suc, ◌≡◌, refl, ap, ◌∙◌, List, [], ◌∷◌, Option, Bool, true, false, not, ◌||◌, all, length,
  filter, ok, arith, ◌==◌, nat_eq,
}
use cloacina.Store.Rows.{TaskExecution, PipelineExecution, PipelineStatus}
use cloacina.Store.Monad.{Db, World, connect, gets, modify, pure, attempt_of, ◌>>=◌, ◌>>◌}
use cloacina.Store.Keeps.{Order, Keeps, Keeps-then, Keeps-bind, Keeps-connect, Keeps-gets}
use cloacina.Store.Queries.{
  incomplete, check_pipeline_completion, get_all_tasks_for_pipeline, of_pipeline,
}
use cloacina.Store.Pipelines
use cloacina.Store.Pipelines.{update_pipeline_where}
use cloacina.Scheduler.Rules.{Json}
use cloacina.Scheduler.Contexts.{Registry}
use cloacina.Scheduler.State.{Dispatch}
use cloacina.Scheduler.Loop.{finish_pipeline, complete_pipeline, update_pipeline_final_context}
use cloacina.Scheduler.Completion.{all_ended}
use cloacina.Scheduler.Abandonment.{Reliable}
use cloacina.Scheduler.Rounds.{update_final-Keeps}

unfoldable pub SameWorld : Db → Db → Type 0
SameWorld a b = b.world ≡ a.world

pub SameWorld-Order : Order SameWorld
unfolding SameWorld connect
SameWorld-Order = record { same = λ db. refl; trans = λ p q. q ∙ p; after_connect = λ db. refl }

final-SameWorld : (i c : ℕ) → Keeps SameWorld (Pipelines.update_final_context i c)
unfolding Pipelines.update_final_context SameWorld modify
final-SameWorld i c =
    let o = SameWorld-Order in
    Keeps-then o (Keeps-connect o)
      (Keeps-bind o (Keeps-gets o _) (λ at. record { at = λ db. refl }))

completed-SameWorld : (i : ℕ) → Keeps SameWorld (Pipelines.mark_completed i)
unfolding Pipelines.mark_completed SameWorld modify
completed-SameWorld i =
    let o = SameWorld-Order in
    Keeps-then o (Keeps-connect o)
      (Keeps-bind o (Keeps-gets o _) (λ at. record { at = λ db. refl }))

none-incomplete :
    (i : ℕ) (rows : List TaskExecution) → all_ended i rows ≡ true → length (incomplete i rows) ≡ 0
unfolding incomplete all_ended
none-incomplete i [] h = refl
none-incomplete i (t ∷ rows) h = ground (arith, none-incomplete i rows)

abbrev is_completed : PipelineStatus → Bool
is_completed PipelineStatus.completed = true
is_completed _ = false

-- The row of the pipeline is completed.
unfoldable pub completed_in : ℕ → List PipelineExecution → Bool
completed_in i ps = all (λ p. not (p.id == i) || is_completed p.status) ps

completed_in-update :
    (i : ℕ) (f : PipelineExecution → PipelineExecution) (ps : List PipelineExecution)
    → ((p : PipelineExecution) → is_completed (f p).status ≡ true)
    → completed_in i (update_pipeline_where i f ps) ≡ true
unfolding completed_in update_pipeline_where
completed_in-update i f [] h = refl
completed_in-update i f (p ∷ ps) h = ground (arith, h p, completed_in-update i f ps h)

mark_completed-run :
    (i : ℕ) (db : Db)
    → Reliable db
    → ((Pipelines.mark_completed i db).0 ≡ ok tt)
      × (completed_in i (Pipelines.mark_completed i db).1.pipelines ≡ true)
unfolding Pipelines.mark_completed connect gets modify ◌>>=◌ ◌>>◌
mark_completed-run i db up =
    rw (up db.calls) (refl, completed_in-update i _ db.pipelines (λ p. refl))

complete_pipeline-run :
    (p : PipelineExecution) (db : Db)
    → Reliable db
    → ((complete_pipeline p db).0 ≡ ok tt)
      × (completed_in p.id (complete_pipeline p db).1.pipelines ≡ true)
unfolding complete_pipeline get_all_tasks_for_pipeline connect gets pure attempt_of ◌>>=◌ ◌>>◌
    SameWorld
complete_pipeline-run p db up =
    rw (up db.calls)
      (mark_completed-run p.id _ (λ k. ap (λ (w : World). w.fault k) (world_after) ∙ up k))
  where
    world_after :
        (update_pipeline_final_context p.id
          (filter (of_pipeline p.id) db.tasks)
          (record db { calls = suc db.calls })).1.world
        ≡ db.world
    world_after =
        (update_final-Keeps SameWorld-Order final-SameWorld completed-SameWorld p.id _).at
          (record db { calls = suc db.calls })

module _ (json : Json) (registry : Registry) (dispatcher : Option Dispatch) where
  -- On a database that answers, the step of a round that checks a pipeline whose task rows have
  -- all ended ends without an error and leaves the pipeline's row completed, also when some or all
  -- of those tasks failed or were skipped, and also when its final context cannot be determined. A
  -- failed task does not make the pipeline fail here.
  pub finish_pipeline-completes :
      (p : PipelineExecution) (db : Db)
      → Reliable db
      → all_ended p.id db.tasks ≡ true
      → ((finish_pipeline json registry dispatcher p true db).0 ≡ ok tt)
        × (completed_in p.id (finish_pipeline json registry dispatcher p true db).1.pipelines
            ≡ true)
  unfolding finish_pipeline check_pipeline_completion connect gets pure ◌>>=◌ ◌>>◌
  finish_pipeline-completes p db up ended =
      rw (up db.calls, none-incomplete p.id db.tasks ended)
        (complete_pipeline-run p (record db { calls = suc db.calls }) up)
