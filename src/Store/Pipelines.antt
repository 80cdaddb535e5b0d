-- ===== src/Store/Pipelines.antt =====
-- crates/cloacina/src/dal/unified/pipeline_execution.rs: the table of executions.
use cloacina.Common.{
  ℕ, Bool, true, false, List, [], ◌∷◌, Option, none, some, Text, ◌==◌, nat_eq, text_eq, ltb,
  if◌then◌else◌, filter, suc, leb, ◌++◌,
}
use cloacina.Common.Tables.{sort_by, take}
use cloacina.Store.Rows.{PipelineExecution, PipelineStatus}
use cloacina.Store.Monad.{M, ◌>>=◌, ◌>>◌, connect, now, new_v4, gets, modify, pure}
use cloacina.Store.Queries.{found}

unfoldable pub update_pipeline_where :
    ℕ → (PipelineExecution → PipelineExecution) → List PipelineExecution → List PipelineExecution
update_pipeline_where id f [] = []
update_pipeline_where id f (p ∷ ps) =
    (if p.id == id then f p else p) ∷ update_pipeline_where id f ps

abbrev pub stamp_pipeline : ℕ → (ℕ → PipelineExecution → PipelineExecution) → M (Unit {0})
stamp_pipeline id f = do
  connect
  at ← now
  modify (λ db. record db { pipelines = update_pipeline_where id (f at) db.pipelines })

unfoldable pub find_pipeline : ℕ → List PipelineExecution → Option PipelineExecution
find_pipeline id [] = none
find_pipeline id (p ∷ ps) = if p.id == id then some p else find_pipeline id ps

unfoldable pub get_by_id : ℕ → M PipelineExecution
get_by_id id = do connect; row ← gets (λ db. find_pipeline id db.pipelines); found row

pub record NewPipelineExecution : Type 0 where
  pub pipeline_name : Text
  pub pipeline_version : Text
  pub status : PipelineStatus
  pub context_id : Option ℕ

abbrev pub new_pipeline : NewPipelineExecution → ℕ → ℕ → PipelineExecution
new_pipeline new id at = record {
  id = id;
  pipeline_name = new.pipeline_name;
  pipeline_version = new.pipeline_version;
  status = new.status;
  context_id = new.context_id;
  started_at = at;
  completed_at = none;
  error_details = none;
  recovery_attempts = 0;
  last_recovery_at = none;
  created_at = at;
  updated_at = at;
}

-- The row is read again once it is inserted.
unfoldable pub create : NewPipelineExecution → M PipelineExecution
create new = do
  connect
  id ← new_v4
  at ← now
  modify (λ db. record db { pipelines = db.pipelines ++ new_pipeline new id at ∷ [] })
  get_by_id id

abbrev pub is_active : PipelineStatus → Bool
is_active PipelineStatus.pending = true
is_active PipelineStatus.running = true
is_active _ = false

unfoldable pub get_active_executions : M (List PipelineExecution)
get_active_executions = do connect; gets (λ db. filter (λ p. is_active p.status) db.pipelines)

unfoldable pub update_status : ℕ → PipelineStatus → M (Unit {0})
update_status id status = stamp_pipeline id (λ at p. record p { status = status; updated_at = at })

unfoldable pub mark_completed : ℕ → M (Unit {0})
mark_completed id =
    stamp_pipeline id λ at p. record p {
      status = PipelineStatus.completed;
      completed_at = some at;
      updated_at = at;
    }

abbrev pub set_failed : Text → ℕ → PipelineExecution → PipelineExecution
set_failed reason at p = record p {
  status = PipelineStatus.failed;
  completed_at = some at;
  error_details = some reason;
  updated_at = at;
}

unfoldable pub mark_failed : ℕ → Text → M (Unit {0})
mark_failed id reason = stamp_pipeline id (set_failed reason)

unfoldable pub increment_recovery_attempts : ℕ → M (Unit {0})
increment_recovery_attempts id = stamp_pipeline id λ at p. record p {
  recovery_attempts = suc p.recovery_attempts;
  last_recovery_at = some at;
  updated_at = at;
}

abbrev pub set_cancelled : ℕ → PipelineExecution → PipelineExecution
set_cancelled at p = record p {
  status = PipelineStatus.cancelled;
  completed_at = some at;
  updated_at = at;
}

unfoldable pub cancel : ℕ → M (Unit {0})
cancel id = stamp_pipeline id set_cancelled

unfoldable pub update_final_context : ℕ → ℕ → M (Unit {0})
update_final_context id final_context_id =
    stamp_pipeline id (λ at p. record p { context_id = some final_context_id; updated_at = at })

-- The latest start comes first.
abbrev later_start : PipelineExecution → Option PipelineExecution → Option PipelineExecution
later_start p none = some p
later_start p (some q) = if ltb p.started_at q.started_at then some q else some p

unfoldable pub latest_of : Text → List PipelineExecution → Option PipelineExecution
latest_of name [] = none
latest_of name (p ∷ ps) =
    if p.pipeline_name == name then later_start p (latest_of name ps) else latest_of name ps

abbrev version_of : Option PipelineExecution → Option Text
version_of none = none
version_of (some p) = some p.pipeline_version

unfoldable pub get_last_version : Text → M (Option Text)
get_last_version pipeline_name = do
  connect
  latest ← gets (λ db. latest_of pipeline_name db.pipelines)
  pure (version_of latest)

abbrev started_later : PipelineExecution → PipelineExecution → Bool
started_later p q = leb q.started_at p.started_at

unfoldable pub list_recent : ℕ → M (List PipelineExecution)
list_recent limit = do connect; gets (λ db. take limit (sort_by started_later db.pipelines))
