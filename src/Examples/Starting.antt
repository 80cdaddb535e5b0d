-- ===== src/Examples/Starting.antt =====
-- The start of an execution: crates/cloacina/src/task_scheduler/mod.rs.
use cloacina.Common.{codes, [], ◌∷◌, refl, text_beq}
use cloacina.Common.Dict
use cloacina.Namespace.{namespace_beq}
use cloacina.Store.Monad.{Db, BackendType}
use cloacina.Context.{new}
use cloacina.Workflow.Graph
use cloacina.Workflow.Tasks
use cloacina.Scheduler.Schedule.{schedule_workflow_execution}
use cloacina.Scheduler.Scheduling.{Outcome, schedule_workflow_execution-Outcome}
use cloacina.Examples.Samples.{
  serde, petgraph, registry, etl, extract_ns, load_ns, database, extract_done,
}

abbrev idle : Db
idle = database BackendType.postgres (extract_done ∷ [])

schedule_workflow_execution-Outcome_example :
    Outcome serde etl
      (codes "etl")
      (extract_ns ∷ load_ns ∷ [])
      idle
      (schedule_workflow_execution serde petgraph registry (codes "etl") new idle)
unfolding text_beq namespace_beq Dict.get Tasks.topological_sort Tasks.validate Tasks.check_missing
    Tasks.first_missing Graph.topological_sort Graph.has_cycles Graph.to_digraph Graph.arcs_of
    Graph.arcs_into
schedule_workflow_execution-Outcome_example =
    schedule_workflow_execution-Outcome serde petgraph registry (codes "etl") new etl
      (extract_ns ∷ load_ns ∷ []) idle refl refl
