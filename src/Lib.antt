-- ===== src/Lib.antt =====
-- Cloacina: the scheduler of workflows, its executor and dispatcher, its cron services, the store of
-- their rows, and the workflow graph.
--
-- Cloacina runs workflows, which are graphs of tasks, against a database. A workflow is built and
-- validated (crates/cloacina/src/workflow); an execution of it is a row of a pipeline and a row for
-- each task. A loop (crates/cloacina/src/task_scheduler) reads the rows of the active pipelines,
-- moves each pending task whose dependencies have ended to ready or skipped by its trigger rule,
-- hands a ready task to a dispatcher (crates/cloacina/src/dispatcher), and completes a pipeline whose
-- tasks have all ended. The dispatcher picks an executor by the task's name; the thread executor
-- (crates/cloacina/src/executor) builds the task's context, runs its code, stores its output, and
-- decides on a retry by the task's policy (crates/cloacina-workflow/src/retry.rs). At startup the
-- recovery resets or abandons the tasks that a crash left running. The cron services
-- (crates/cloacina/src/cron_scheduler.rs and cron_recovery.rs) claim the schedules that are due, write
-- an audit record for each time they hand off, and hand off again what was lost. The rows are read and
-- written by the data access layer (crates/cloacina/src/dal/unified), which has a PostgreSQL and a
-- SQLite variant of each statement.
--
-- Files, and the code they are about:
--   Common/       tests, lists, results, texts, fractions, hash maps as association lists, tables
--   Namespace     crates/cloacina-workflow/src/namespace.rs
--   Context       crates/cloacina-workflow/src/context.rs
--   Errors        crates/cloacina-workflow/src/error.rs, and the executor's error of
--                 crates/cloacina/src/error.rs
--   Retry         crates/cloacina-workflow/src/retry.rs. Delays: a theorem.
--   Store/        Rows: crates/cloacina/src/models. Monad: a call's effects. Tasks, Queries, Claims:
--                 crates/cloacina/src/dal/unified/task_execution. Pipelines, Metadata:
--                 pipeline_execution.rs and task_execution_metadata.rs beside it. CronRows,
--                 CronSchedules, CronExecutions: cron_schedule and cron_execution beside it. Keeps,
--                 Runs, Frame, PipelineFrame: rules for the runs. Claiming, Statistics, Upserts:
--                 theorems.
--   Workflow/     Graph: crates/cloacina/src/workflow/graph.rs. Tasks, Levels: mod.rs beside it.
--                 Cycles, CycleFuel, Order, WellFormed, Layering: theorems.
--   Scheduler/    Rules, Contexts, State, Loop, Recovery: trigger_rules.rs, context_manager.rs,
--                 state_manager.rs, scheduler_loop.rs and recovery.rs of
--                 crates/cloacina/src/task_scheduler. Reads, Writes, Rounds: what each handler may
--                 change. Schedule: mod.rs beside them. Scheduling, Dependencies, Progress,
--                 Conditions, Verdicts, Completion, Ending, Safety, Cancelling, Merging,
--                 RecoveryFrame, RecoveryBound, Abandonment: theorems.
--   Router        crates/cloacina/src/dispatcher/router.rs. Segments, Globs, Rules: theorems.
--   Executor/     Threads, Retries, Contexts, Values: crates/cloacina/src/executor/
--                 thread_task_executor.rs. Outcomes: crates/cloacina/src/dispatcher/types.rs. Writes:
--                 what a run may change. Counting, Merging, Idempotence: theorems.
--   Dispatcher    crates/cloacina/src/dispatcher/default.rs. Scheduling, Settling, Frame, Attempts:
--                 theorems.
--   Cron/         Evaluator, Scheduler, Recovery: cron_evaluator.rs, cron_scheduler.rs and
--                 cron_recovery.rs of crates/cloacina/src. Audits, Fates, Passes: what the creation
--                 of a record and the loop over the times do. Occurrences, Claims, Auditing,
--                 GivingUp, RunningOut: theorems.
--   Examples/     sample data, and the theorems at concrete inputs
--
-- A run is a function from a database to a result and a database. The database has the tables as
-- lists in some order, and a world that says which calls find it unreachable, what the clock
-- answers and which identifiers are drawn; a theorem holds for every world unless it says
-- otherwise. A statement that is not answered changes no row. The upsert of a task's output and the
-- creation of an audit record are modelled statement by statement, so that a failure in between
-- leaves what was written; every other method of the data access layer is one step, which fails as
-- a whole: among these is SQLite's claim of ready tasks, which in the code updates the rows one
-- after the other outside a transaction. Unique and foreign keys are modelled for the tables of
-- task outputs and of audit records (crates/cloacina/src/database/migrations); primary keys and the
-- keys of the other tables are not. A row of a task's output is modelled without its own id and its
-- two times. SQLite is taken to check foreign keys, as the bundled library that the build asks for
-- does. The world also lists the calls of the pipeline executor, which is no state of the program:
-- a theorem on hand-offs speaks of that list. Methods run one after the other: the interleaving of
-- several processes on one database is not modelled, and one run of a task is modelled alone. A
-- panic of a task's code is no outcome of the model: it unwinds through the executor and leaves the
-- count of active tasks raised. Times count nanoseconds.
--
-- Parameters: petgraph's cycle test and sort (`Petgraph`), serde_json (`Json`, `Serde`, `Parser`),
-- the registry of workflows (`Registry`), floating point numbers (`Float`), what `Display` prints
-- (`Printing`), the code of a task (`TaskCode`) and the executor's other surroundings
-- (`Surroundings`), the libraries croner and chrono_tz (`Croner`), and what the cron services call
-- (`Services`). The state manager takes the dispatcher as a parameter (`Dispatch`), which the model
-- of the dispatcher fills. The depth of the search for a cycle has as fuel the number of nodes and
-- listed dependencies and one, which is enough on every graph; the loop over the levels has as fuel
-- the number of sorted tasks, which is enough if the sort puts dependencies first. The attempts
-- that the cron recovery remembers are an argument and a result of its methods.
--
-- Not modelled: the loops that repeat a check (timers of tokio), the registry of tasks, the registry
-- and the loader of packages, the database connections, the runner, the macros and the language
-- bindings.
pub mod Common
pub mod Namespace
pub mod Store
pub mod Workflow
pub mod Context
pub mod Cron
pub mod Scheduler
pub mod Errors
pub mod Dispatcher
pub mod Executor
pub mod Retry
pub mod Router
pub mod Examples
