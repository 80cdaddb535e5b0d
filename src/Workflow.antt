-- ===== src/Workflow.antt =====
-- crates/cloacina/src/workflow: the dependency graph of a workflow, the workflow and its builder.
pub mod Graph
pub mod Tasks
pub mod WellFormed
pub mod Order
pub mod Cycles
pub mod CycleFuel
pub mod Levels
pub mod Layering
