-- ===== src/Store/Claims.antt =====
-- crates/cloacina/src/dal/unified/task_execution/claiming.rs: claiming ready tasks. PostgreSQL
-- returns the claimed rows in no fixed order; they are listed here in the order of the claim.
use cloacina.Common.{
  ℕ, zero, suc, Bool, true, ◌&&◌, List, [], ◌∷◌, map, Option, none, some, Text, ◌==◌, if◌then◌else◌,
  filter, leb, nat_eq,
}
use cloacina.Store.Rows.{TaskExecution, Status, status_eq}
use cloacina.Store.Monad.{M, BackendType, ◌>>=◌, ◌>>◌, connect, now, gets, modify, pure}
use cloacina.Store.Tasks.{update_where}

pub record ClaimResult : Type 0 where
  pub id : ℕ
  pub pipeline_execution_id : ℕ
  pub task_name : Text
  pub attempt : ℕ

-- `status = 'Ready' AND (retry_at IS NULL OR retry_at <= now)`
abbrev pub is_due : ℕ → Option ℕ → Bool
is_due at none = true
is_due at (some t) = leb t at

abbrev pub is_claimable : ℕ → TaskExecution → Bool
is_claimable at t = t.status == Status.ready && is_due at t.retry_at

-- `LIMIT`
abbrev pub take {ℓ} : {A : Type ℓ} → ℕ → List A → List A
take zero xs = []
take (suc n) [] = []
take (suc n) (x ∷ xs) = x ∷ take n xs

-- `ORDER BY id ASC`
unfoldable pub insert_by_id : TaskExecution → List TaskExecution → List TaskExecution
insert_by_id t [] = t ∷ []
insert_by_id t (u ∷ us) = if leb t.id u.id then t ∷ u ∷ us else u ∷ insert_by_id t us

unfoldable pub sort_by_id : List TaskExecution → List TaskExecution
sort_by_id [] = []
sort_by_id (t ∷ ts) = insert_by_id t (sort_by_id ts)

unfoldable pub set_running : ℕ → TaskExecution → TaskExecution
set_running at t = record t { status = Status.running; started_at = some at }

unfoldable pub run_all : ℕ → List TaskExecution → List TaskExecution → List TaskExecution
run_all at [] rows = rows
run_all at (t ∷ ts) rows = run_all at ts (update_where t.id (set_running at) rows)

abbrev pub claim_of : TaskExecution → ClaimResult
claim_of t = record {
  id = t.id;
  pipeline_execution_id = t.pipeline_execution_id;
  task_name = t.task_name;
  attempt = t.attempt;
}

-- The rows that a claim picks, in the order of the backend.
unfoldable pub select_ready : BackendType → ℕ → ℕ → List TaskExecution → List TaskExecution
select_ready BackendType.postgres limit at rows =
    take limit (sort_by_id (filter (is_claimable at) rows))
select_ready BackendType.sqlite limit at rows = take limit (filter (is_claimable at) rows)

-- SQLite updates the picked rows one after the other, outside a transaction; the model takes the
-- claim as one step, which fails as a whole.
unfoldable pub claim_ready_task : ℕ → M (List ClaimResult)
claim_ready_task limit = do
  connect
  at ← now
  ready_tasks ← gets (λ db. select_ready db.backend limit at db.tasks)
  modify (λ db. record db { tasks = run_all at ready_tasks db.tasks })
  pure (map claim_of ready_tasks)

unfoldable pub get_ready_for_retry : M (List TaskExecution)
get_ready_for_retry = do connect; at ← now; gets (λ db. filter (is_claimable at) db.tasks)
