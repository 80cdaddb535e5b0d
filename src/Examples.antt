-- ===== src/Examples.antt =====
-- The theorems at concrete inputs.
mod Samples
mod Scheduling
mod Recovering
mod Claiming
mod Graphs
mod Contexts
mod Names
mod Readiness
mod Starting
mod Routing
mod Surroundings
mod Executing
mod Ticking
