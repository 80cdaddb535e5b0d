-- ===== src/Store/Monad.antt =====
-- The database and the effects of a call. A call may find the database unreachable: `fault` says
-- at which calls, `clock` what `UniversalTimestamp::now` answers and `uuid` what
-- `UniversalUuid::new_v4` answers. All three are arbitrary, so a theorem holds for each of them.
-- `handed_off` is no state of the program: it lists the workflows and contexts that the pipeline
-- executor was asked to execute, so that a theorem can speak of those calls.
use cloacina.Common.{ℕ, suc, Bool, List, Text, Result, ok, err, if◌then◌else◌}
use cloacina.Common.Dict.{HashMap}
use cloacina.Context.{Context}
use cloacina.Executor.Values.{Value}
use cloacina.Store.Rows.{TaskExecution, PipelineExecution, TaskExecutionMetadata, NewRecoveryEvent}
use cloacina.Store.CronRows.{CronSchedule, CronExecution}

pub data ValidationError : Type 0 where
  cyclic_dependency : (cycle : List Text) → ValidationError
  missing_dependency : (task dependency : Text) → ValidationError
  circular_dependency : (cycle : Text) → ValidationError
  empty_workflow : ValidationError
  invalid_graph : ValidationError
  workflow_not_found : Text → ValidationError
  invalid_trigger_rule : Text → ValidationError
  invalid_task_name : Text → ValidationError
  context_evaluation_failed : (key : Text) → ValidationError
  database_not_found database connection_pool context_error : ValidationError

pub record World : Type 0 where
  pub fault : ℕ → Bool
  pub clock : ℕ → ℕ
  pub uuid : ℕ → ℕ
  pub handed_off : List (Text × Context Value)

pub data BackendType : Type 0 where
  postgres sqlite : BackendType

pub record Db : Type 0 where
  pub tasks : List TaskExecution
  pub pipelines : List PipelineExecution
  pub contexts : HashMap ℕ Text
  pub metadata : List TaskExecutionMetadata
  pub recovery_events : List NewRecoveryEvent
  pub schedules : List CronSchedule
  pub cron_executions : List CronExecution
  pub backend : BackendType
  pub calls : ℕ
  pub world : World

abbrev pub M : Type 0 → Type 0
M A = Db → Result ValidationError A × Db

module _ {A : Type 0} where
  unfoldable pub pure : A → M A
  pure a db = (ok a, db)

  unfoldable pub throw : ValidationError → M A
  throw e db = (err e, db)

  unfoldable pub lift : Result ValidationError A → M A
  lift r db = (r, db)

  -- `if let Err(e) = m { log }` and `match m`: the error becomes a value.
  unfoldable pub attempt_of : M A → M (Result ValidationError A)
  attempt_of m db = (ok (m db).0, (m db).1)

module _ {A B : Type 0} where
  abbrev pub and_then : Result ValidationError A → (A → M B) → M B
  and_then (ok a) f db = f a db
  and_then (err e) f db = (err e, db)

  infixl 5 ◌>>=◌
  unfoldable pub ◌>>=◌ : M A → (A → M B) → M B
  ◌>>=◌ m f db = and_then (m db).0 f (m db).1

infixl 5 ◌>>◌
unfoldable pub ◌>>◌ : {B : Type 0} → M (Unit {0}) → M B → M B
unfolding ◌>>=◌
m >> n = m >>= λ _. n

unfoldable pub gets : {A : Type 0} → (Db → A) → M A
gets f db = (ok (f db), db)

unfoldable pub modify : (Db → Db) → M (Unit {0})
modify f db = (ok tt, f db)

-- `get_postgres_connection`, `get_sqlite_connection` and the statement's own failure: the call
-- that fails changes no row.
unfoldable pub connect : M (Unit {0})
connect db = (
  if db.world.fault db.calls then err connection_pool else ok tt,
  record db { calls = suc db.calls },
)

-- A statement of its own, outside a transaction: it fails as a call fails, and then changes no row.
abbrev pub statement : M (Unit {0})
statement = connect

-- A write that the keys of the table allow, or refuse.
unfoldable pub write_if : (Db → Bool) → (Db → Db) → M (Unit {0})
write_if allowed f db = if allowed db then (ok tt, f db) else (err database, db)

-- `UniversalTimestamp::now()`
abbrev pub now : M ℕ
now = gets (λ db. db.world.clock db.calls)

-- `UniversalUuid::new_v4()`: the next draw may answer another number.
unfoldable pub new_v4 : M ℕ
new_v4 db = (ok (db.world.uuid db.calls), record db { calls = suc db.calls })
