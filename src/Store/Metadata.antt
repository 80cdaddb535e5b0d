-- ===== src/Store/Metadata.antt =====
-- crates/cloacina/src/dal/unified/task_execution_metadata.rs: the output of each task, one row for a
-- task execution.
use cloacina.Common.{
  ℕ, Bool, true, not, any, ◌&&◌, List, [], ◌∷◌, ◌++◌, map, Option, none, some, Text, ◌==◌, nat_eq,
  text_eq, if◌then◌else◌, filter, mem,
}
use cloacina.Common.Dict
use cloacina.Common.Dict.{HashMap, contains_key}
use cloacina.Namespace.{TaskNamespace, to_string}
use cloacina.Store.Rows.{TaskExecutionMetadata}
use cloacina.Store.Monad.{
  M, BackendType, ◌>>=◌, ◌>>◌, Db, connect, statement, write_if, new_v4, gets, pure,
}
use cloacina.Store.Queries.{found}

unfoldable pub find_by_task : ℕ → List TaskExecutionMetadata → Option TaskExecutionMetadata
find_by_task task_execution_id [] = none
find_by_task task_execution_id (m ∷ ms) =
    if m.task_execution_id == task_execution_id then some m else find_by_task task_execution_id ms

-- `UPDATE task_execution_metadata SET context_id = … WHERE task_execution_id = …`
unfoldable pub set_context_where :
    ℕ → Option ℕ → List TaskExecutionMetadata → List TaskExecutionMetadata
set_context_where task_execution_id context_id [] = []
set_context_where task_execution_id context_id (m ∷ ms) =
    (if m.task_execution_id == task_execution_id then record m { context_id = context_id } else m)
    ∷ set_context_where task_execution_id context_id ms

unfoldable pub get_by_task_execution : ℕ → M TaskExecutionMetadata
get_by_task_execution task_execution_id = do
  connect
  row ← gets (λ db. find_by_task task_execution_id db.metadata)
  found row

-- `INSERT … ON CONFLICT (task_execution_id) DO UPDATE SET context_id = …`
abbrev pub put_row :
    TaskExecutionMetadata
    → List TaskExecutionMetadata
    → Option TaskExecutionMetadata
    → List TaskExecutionMetadata
put_row new_metadata rows none = rows ++ new_metadata ∷ []
put_row new_metadata rows (some existing) =
    set_context_where new_metadata.task_execution_id new_metadata.context_id rows

unfoldable pub insert_or_update :
    TaskExecutionMetadata → List TaskExecutionMetadata → List TaskExecutionMetadata
insert_or_update new_metadata rows =
    put_row new_metadata rows (find_by_task new_metadata.task_execution_id rows)

-- The foreign keys of a row: its task, its pipeline, and its context if it has one.
abbrev pub context_exists : Option ℕ → HashMap ℕ Text → Bool
context_exists none contexts = true
context_exists (some context_id) contexts = contains_key context_id contexts

-- An update of no row breaks no key.
abbrev update_allowed : Option ℕ → Option TaskExecutionMetadata → HashMap ℕ Text → Bool
update_allowed context_id none contexts = true
update_allowed context_id (some existing) contexts = context_exists context_id contexts

unfoldable pub update_context_id : ℕ → Option ℕ → M (Unit {0})
update_context_id task_execution_id context_id = do
  connect
  write_if
      (λ db. update_allowed context_id (find_by_task task_execution_id db.metadata) db.contexts)
      (λ db. record db { metadata = set_context_where task_execution_id context_id db.metadata })

abbrev pub refers : TaskExecutionMetadata → Db → Bool
refers m db =
    any (λ t. t.id == m.task_execution_id) db.tasks
    && any (λ p. p.id == m.pipeline_execution_id) db.pipelines
    && context_exists m.context_id db.contexts

-- `UNIQUE(pipeline_execution_id, task_name)`
abbrev pub same_key : TaskExecutionMetadata → TaskExecutionMetadata → Bool
same_key m r = r.pipeline_execution_id == m.pipeline_execution_id && r.task_name == m.task_name

-- What the keys of the table ask of an insert, and of an update of the context.
abbrev pub insert_allowed : TaskExecutionMetadata → Db → Bool
insert_allowed m db = not (any (same_key m) db.metadata) && refers m db

abbrev either_allowed : Option TaskExecutionMetadata → Bool → Bool → Bool
either_allowed none insert update = insert
either_allowed (some existing) insert update = update

abbrev pub upsert_allowed : TaskExecutionMetadata → Option TaskExecutionMetadata → Db → Bool
upsert_allowed m old db =
    either_allowed old (insert_allowed m db) (context_exists m.context_id db.contexts)

-- SQLite looks for the row first. Each statement is one of its own: a failure in between leaves
-- what was written.
unfoldable pub upsert_found : Option TaskExecutionMetadata → TaskExecutionMetadata → M (Unit {0})
upsert_found (some existing) new_metadata = do
  statement
  write_if (λ db. context_exists new_metadata.context_id db.contexts)
      (λ db. record db {
        metadata =
            set_context_where new_metadata.task_execution_id new_metadata.context_id db.metadata;
      })
upsert_found none new_metadata = do
  id ← new_v4
  statement
  write_if (insert_allowed new_metadata)
      (λ db. record db { metadata = db.metadata ++ new_metadata ∷ [] })

unfoldable pub upsert_in : BackendType → TaskExecutionMetadata → M (Unit {0})
upsert_in BackendType.postgres new_metadata = do
  id ← new_v4
  statement
  write_if
      (λ db.
        upsert_allowed new_metadata (find_by_task new_metadata.task_execution_id db.metadata) db)
      (λ db. record db { metadata = insert_or_update new_metadata db.metadata })
upsert_in BackendType.sqlite new_metadata = do
  statement
  existing ← gets (λ db. find_by_task new_metadata.task_execution_id db.metadata)
  upsert_found existing new_metadata

-- The row is read again by its task, or, after SQLite's insert, by its new id.
unfoldable pub upsert_task_execution_metadata : TaskExecutionMetadata → M TaskExecutionMetadata
upsert_task_execution_metadata new_metadata = do
  connect
  backend ← gets (λ db. db.backend)
  upsert_in backend new_metadata
  statement
  row ← gets (λ db. find_by_task new_metadata.task_execution_id db.metadata)
  found row

abbrev is_among : ℕ → List Text → TaskExecutionMetadata → Bool
is_among pipeline_id names m = m.pipeline_execution_id == pipeline_id && mem m.task_name names

unfoldable pub get_dependency_metadata : ℕ → List Text → M (List TaskExecutionMetadata)
get_dependency_metadata pipeline_id names = do
  connect
  gets (λ db. filter (is_among pipeline_id names) db.metadata)

-- The left join with the table of contexts.
abbrev value_at : Option ℕ → List (ℕ × Text) → Option Text
value_at none contexts = none
value_at (some context_id) contexts = Dict.get context_id contexts

unfoldable pub get_dependency_metadata_with_contexts :
    ℕ → List TaskNamespace → M (List (TaskExecutionMetadata × Option Text))
get_dependency_metadata_with_contexts pipeline_id [] = pure []
get_dependency_metadata_with_contexts pipeline_id (ns ∷ nss) = do
  connect
  gets (λ db.
      map (λ m. (m, value_at m.context_id db.contexts))
        (filter (is_among pipeline_id (map to_string (ns ∷ nss))) db.metadata))
