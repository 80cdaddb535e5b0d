-- ===== src/Dispatcher.antt =====
-- crates/cloacina/src/dispatcher/default.rs: the dispatcher, a table of executors behind the router.
-- The executors of a table share one implementation of the trait `TaskExecutor`.
use cloacina.Common.{
  ℕ, Bool, [], Option, none, some, Text, codes, Result, ok, err, any, text_eq, if◌then◌else◌,
}
use cloacina.Common.Dict
use cloacina.Common.Dict.{HashMap, values}
use cloacina.Store.Monad.{M, ValidationError, ◌>>=◌, ◌>>◌, pure, attempt_of}
use cloacina.Store.Tasks
use cloacina.Router
use cloacina.Router.{RoutingConfig}
use cloacina.Scheduler.State.{Dispatch, TaskReadyEvent}
use cloacina.Executor.Outcomes.{
  ExecutionResult, ExecutionStatus, DispatchError, executor_not_found, no_capacity,
  validation_error,
}
use cloacina.Executor.Threads
use cloacina.Executor.Threads.{ThreadTaskExecutor, Surroundings}
pub mod Scheduling
pub mod Settling
pub mod Frame
pub mod Attempts

-- The trait `TaskExecutor` over the executor's own state.
pub record TaskExecutor (S : Type 0) : Type 0 where
  pub execute : S → TaskReadyEvent → M (Result DispatchError ExecutionResult × S)
  pub has_capacity : S → Bool

pub record DefaultDispatcher (S : Type 0) : Type 0 where
  pub executors : HashMap Text S
  pub router : RoutingConfig

abbrev pub or_unknown : Option Text → Text
or_unknown none = codes "Unknown error"
or_unknown (some error) = error

abbrev pub settle : ℕ → Option Text → ExecutionStatus → M (Unit {0})
settle id error ExecutionStatus.completed = Tasks.mark_completed id
settle id error ExecutionStatus.failed = Tasks.mark_failed id (or_unknown error)
settle id error ExecutionStatus.retry = pure tt

-- A retry was scheduled by the executor already.
unfoldable pub handle_result : TaskReadyEvent → ExecutionResult → M (Unit {0})
handle_result event result = settle event.task_execution_id result.error result.status

abbrev pub Answer : Type 0 → Type 0
Answer S = Result DispatchError (Unit {0}) × DefaultDispatcher S

module _ {S : Type 0} where
  unfoldable pub new : RoutingConfig → DefaultDispatcher S
  new routing = record { executors = []; router = routing }

  unfoldable pub register_executor : Text → S → DefaultDispatcher S → DefaultDispatcher S
  register_executor key executor d = record d { executors = Dict.insert key executor d.executors }

  unfoldable pub resolve_executor_key : DefaultDispatcher S → Text → Text
  resolve_executor_key d task_name = Router.resolve d.router task_name

  abbrev pub put : Text → S → DefaultDispatcher S → DefaultDispatcher S
  put key executor d = record d { executors = Dict.insert key executor d.executors }

  module _ (executor : TaskExecutor S) (describe : ValidationError → Text) where
    unfoldable pub has_capacity : DefaultDispatcher S → Bool
    has_capacity d = any executor.has_capacity (values d.executors)

    abbrev pub as_dispatch_error :
        Result ValidationError (Unit {0}) → Result DispatchError (Unit {0})
    as_dispatch_error (ok u) = ok u
    as_dispatch_error (err e) = err (validation_error (describe e))

    -- After the executor: its result is stored unless it is an error.
    unfoldable pub after_execute :
        TaskReadyEvent → DefaultDispatcher S → Result DispatchError ExecutionResult → M (Answer S)
    after_execute event d (err e) = pure (err e, d)
    after_execute event d (ok result) = do
      r ← attempt_of (handle_result event result)
      pure (as_dispatch_error r, d)

    unfoldable pub dispatch_to : DefaultDispatcher S → TaskReadyEvent → Text → S → M (Answer S)
    dispatch_to d event key ex =
        let run = do r ← executor.execute ex event; after_execute event (put key r.1 d) r.0
        in if executor.has_capacity ex then run else pure (err (no_capacity key), d)

    abbrev pub dispatch_found :
        DefaultDispatcher S → TaskReadyEvent → Text → Option S → M (Answer S)
    dispatch_found d event key none = pure (err (executor_not_found key), d)
    dispatch_found d event key (some ex) = dispatch_to d event key ex

    unfoldable pub dispatch : DefaultDispatcher S → TaskReadyEvent → M (Answer S)
    dispatch d event =
        let key = Router.resolve d.router event.task_name in
        dispatch_found d event key (Dict.get key d.executors)

    -- The dispatcher as the scheduler calls it: an error is only logged there.
    abbrev pub as_dispatch : DefaultDispatcher S → Dispatch
    as_dispatch d event = dispatch d event >>= λ _. pure tt

-- The thread executor behind the trait: it never answers an error.
abbrev pub threads : Surroundings → TaskExecutor ThreadTaskExecutor
threads s = record {
  execute = λ ex event. Threads.execute s ex event >>= λ r. pure (ok r.0, r.1);
  has_capacity = Threads.has_capacity;
}
