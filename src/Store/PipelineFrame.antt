-- ===== src/Store/PipelineFrame.antt =====
-- The operations on pipelines leave the task rows as they are.
use cloacina.Common.{ℕ, refl, Text}
use cloacina.Store.Rows.{PipelineExecution}
use cloacina.Store.Monad.{modify}
use cloacina.Store.Keeps.{Keeps, Keeps-then, Keeps-bind, Keeps-connect, Keeps-gets}
use cloacina.Store.Frame.{SameTasks, SameTasks-Order}
use cloacina.Store.Pipelines
use cloacina.Store.Pipelines.{stamp_pipeline}

stamp_pipeline-SameTasks :
    (id : ℕ) (f : ℕ → PipelineExecution → PipelineExecution) → Keeps SameTasks (stamp_pipeline id f)
unfolding SameTasks modify
stamp_pipeline-SameTasks id f =
    let o = SameTasks-Order in
    Keeps-then o (Keeps-connect o)
      (Keeps-bind o (Keeps-gets o _) (λ at. record { at = λ db. refl }))

pub update_final_context-SameTasks :
    (id context_id : ℕ) → Keeps SameTasks (Pipelines.update_final_context id context_id)
unfolding Pipelines.update_final_context
update_final_context-SameTasks id context_id = stamp_pipeline-SameTasks id _

pub mark_completed-SameTasks : (id : ℕ) → Keeps SameTasks (Pipelines.mark_completed id)
unfolding Pipelines.mark_completed
mark_completed-SameTasks id = stamp_pipeline-SameTasks id _

pub mark_failed-SameTasks :
    (id : ℕ) (reason : Text) → Keeps SameTasks (Pipelines.mark_failed id reason)
unfolding Pipelines.mark_failed
mark_failed-SameTasks id reason = stamp_pipeline-SameTasks id _

pub cancel-SameTasks : (id : ℕ) → Keeps SameTasks (Pipelines.cancel id)
unfolding Pipelines.cancel
cancel-SameTasks id = stamp_pipeline-SameTasks id _
