-- ===== src/Scheduler/Rounds.antt =====
-- A round of the scheduling loop, and the completion of a pipeline, go up in every preorder in
-- which the readiness update and the two writes to a pipeline do.
use cloacina.Common.{
  ℕ, ◌≡◌, refl, subst, List, [], ◌∷◌, ◌++◌, Option, none, some, Bool, true, false, All, All-append,
  nat_eq, inl, inr,
}
use cloacina.Common.Dict
use cloacina.Common.Dict.{HashMap, get-insert_cases}
use cloacina.Store.Rows.{TaskExecution, PipelineExecution, status_eq}
use cloacina.Store.Monad.{Db}
use cloacina.Store.Keeps.{
  Order, Keeps, Keeps-bind, Keeps-then, Keeps-pure, Keeps-if, Keeps-lift, Keeps-attempt,
}
use cloacina.Store.Pipelines
use cloacina.Scheduler.Rules.{Json}
use cloacina.Scheduler.Contexts.{Registry}
use cloacina.Scheduler.State.{Dispatch, update_pipeline_task_readiness}
use cloacina.Scheduler.Loop.{
  Latest, or_nil, group_tasks, consider, consider_at, find_final_context, store_final,
  update_pipeline_final_context, complete_pipeline, update_readiness, finish_pipeline,
  process_pipeline, process_pipelines,
}
use cloacina.Scheduler.Reads.{
  get_by_pipeline_and_task-Keeps, get_all_tasks-Keeps, check_pipeline_completion-Keeps,
}

module _ {R : Db → Db → Type 0} (o : Order R)
    (stores : (id context_id : ℕ) → Keeps R (Pipelines.update_final_context id context_id))
    (completes : (id : ℕ) → Keeps R (Pipelines.mark_completed id)) where
  consider_at-Keeps :
      (i : ℕ) (t : TaskExecution) (latest : Latest) (at : Option ℕ)
      → Keeps R (consider_at i t latest at)
  unfolding consider_at consider
  consider_at-Keeps i t latest none = Keeps-pure o _
  consider_at-Keeps i t latest (some at) = Keeps-bind o (Keeps-lift o _) λ ns.
      Keeps-bind o (Keeps-attempt o (get_by_pipeline_and_task-Keeps o i ns)) (λ row. Keeps-pure o _)

  find_final_context-Keeps :
      (i : ℕ) (ts : List TaskExecution) (latest : Latest) → Keeps R (find_final_context i ts latest)
  unfolding find_final_context
  find_final_context-Keeps i [] latest = Keeps-pure o _
  find_final_context-Keeps i (t ∷ ts) latest =
      Keeps-bind o (Keeps-if _ (consider_at-Keeps i t latest t.completed_at) (Keeps-pure o latest))
        (find_final_context-Keeps i ts)

  store_final-Keeps : (i : ℕ) (latest : Latest) → Keeps R (store_final i latest)
  unfolding store_final
  store_final-Keeps i none = Keeps-pure o _
  store_final-Keeps i (some latest) = stores i latest.1

  pub update_final-Keeps :
      (i : ℕ) (ts : List TaskExecution) → Keeps R (update_pipeline_final_context i ts)
  unfolding update_pipeline_final_context
  update_final-Keeps i ts = Keeps-bind o (find_final_context-Keeps i ts none) (store_final-Keeps i)

  pub complete_pipeline-Keeps : (p : PipelineExecution) → Keeps R (complete_pipeline p)
  unfolding complete_pipeline
  complete_pipeline-Keeps p = Keeps-bind o (get_all_tasks-Keeps o p.id) λ ts.
      Keeps-then o
        (Keeps-bind o (Keeps-attempt o (update_final-Keeps p.id ts)) (λ _. Keeps-pure o tt))
        (completes p.id)

  module _ (json : Json) (registry : Registry) (dispatcher : Option Dispatch)
      (P : List TaskExecution → Type 0)
      (updates : (ts : List TaskExecution)
        → P ts
        → Keeps R (update_pipeline_task_readiness json registry dispatcher ts))
      (groups : HashMap ℕ (List TaskExecution))
      (all_P : (i : ℕ) (ts : List TaskExecution) → Dict.get i groups ≡ some ts → P ts) where
    update_readiness-Keeps :
        (ts : Option (List TaskExecution))
        → ((l : List TaskExecution) → ts ≡ some l → P l)
        → Keeps R (update_readiness json registry dispatcher ts)
    unfolding update_readiness
    update_readiness-Keeps none h = Keeps-pure o _
    update_readiness-Keeps (some ts) h =
        Keeps-bind o (Keeps-attempt o (updates ts (h ts refl))) (λ r. Keeps-pure o _)

    finish_pipeline-Keeps :
        (p : PipelineExecution) (b : Bool) → Keeps R (finish_pipeline json registry dispatcher p b)
    unfolding finish_pipeline
    finish_pipeline-Keeps p false = Keeps-pure o _
    finish_pipeline-Keeps p true =
        Keeps-bind o (check_pipeline_completion-Keeps o p.id)
          (λ b. Keeps-if b (complete_pipeline-Keeps p) (Keeps-pure o _))

    process_pipeline-Keeps :
        (p : PipelineExecution) → Keeps R (process_pipeline json registry dispatcher groups p)
    unfolding process_pipeline
    process_pipeline-Keeps p =
        Keeps-bind o (update_readiness-Keeps (Dict.get p.id groups) (all_P p.id))
          (finish_pipeline-Keeps p)

    pub process_pipelines-Keeps :
        (ps : List PipelineExecution)
        → Keeps R (process_pipelines json registry dispatcher groups ps)
    unfolding process_pipelines
    process_pipelines-Keeps [] = Keeps-pure o _
    process_pipelines-Keeps (p ∷ ps) =
        Keeps-then o (process_pipeline-Keeps p) (process_pipelines-Keeps ps)

or_nil-All :
    (Q : TaskExecution → Type 0) (o : Option (List TaskExecution))
    → ((l : List TaskExecution) → o ≡ some l → All Q l)
    → All Q (or_nil o)
or_nil-All Q none h = tt
or_nil-All Q (some l) h = h l refl

-- What holds of each task holds of each group.
pub group_tasks-All :
    (Q : TaskExecution → Type 0) (ts : List TaskExecution) (groups : HashMap ℕ (List TaskExecution))
    → All Q ts
    → ((i : ℕ) (l : List TaskExecution) → Dict.get i groups ≡ some l → All Q l)
    → (i : ℕ) (l : List TaskExecution) → Dict.get i (group_tasks ts groups) ≡ some l
    → All Q l
unfolding group_tasks
group_tasks-All Q [] groups h g = g
group_tasks-All Q (t ∷ ts) groups h g =
    let k = t.pipeline_execution_id in
    let pushed = or_nil (Dict.get k groups) ++ t ∷ [] in
    let kept =
      All-append Q (or_nil (Dict.get k groups)) (t ∷ []) (or_nil-All Q _ (g k)) (h.0, tt) in
    group_tasks-All Q ts (Dict.insert k pushed groups) h.1 λ i l e.
      elim (get-insert_cases k i pushed l groups e) [
        | inl same ↦ subst (All Q) same kept
        | inr old ↦ g i l old
      ]
