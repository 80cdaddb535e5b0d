-- ===== src/Examples/Claiming.antt =====
-- The claims and the statistics: crates/cloacina/src/dal/unified/task_execution.
use cloacina.Common.{
  ℕ, ◌≡◌, refl, codes, [], ◌∷◌, mem, map, nat_eq, true, false, length, min, filter, any, ◌&&◌, ◌==◌,
}
use cloacina.Store.Rows.{TaskExecution, Status, status_eq}
use cloacina.Store.Monad.{Db, BackendType, connect, gets, modify, pure, ◌>>=◌, ◌>>◌}
use cloacina.Store.Tasks.{update_where}
use cloacina.Store.Claims.{
  ClaimResult, claim_of, is_claimable, insert_by_id, sort_by_id, set_running, run_all, select_ready,
  claim_ready_task,
}
use cloacina.Store.Claiming.{claim_time, claim_ready_task-disjoint, claim_ready_task-due}
use cloacina.Store.Queries.{
  RetryStats, count_tasks, get_all_tasks_for_pipeline, get_retry_stats, get_exhausted_retry_tasks,
}
use cloacina.Store.Statistics.{Counts, get_retry_stats_lem}
use cloacina.Examples.Samples.{database, row}

abbrev first : TaskExecution
first = row 1 (codes "a") Status.ready 0

abbrev second : TaskExecution
second = row 2 (codes "b") Status.ready 0

abbrev two_ready : Db
two_ready = database BackendType.postgres (second ∷ first ∷ [])

claim_ready_task-disjoint_example :
    mem 1 (map (λ (c : ClaimResult). c.id) (claim_of second ∷ [])) ≡ false
unfolding claim_ready_task connect gets modify pure ◌>>=◌ ◌>>◌ select_ready sort_by_id insert_by_id
    run_all set_running update_where
claim_ready_task-disjoint_example =
    claim_ready_task-disjoint 1 1 two_ready {cs = claim_of first ∷ []} {ds = claim_of second ∷ []}
      refl refl 1 refl

claim_ready_task-due_example :
    (1 ≡ min 1 (length (filter (is_claimable (claim_time two_ready)) two_ready.tasks)))
    × ((i : ℕ)
        → mem i (map (λ (c : ClaimResult). c.id) (claim_of first ∷ [])) ≡ true
        → any (λ t. t.id == i && is_claimable (claim_time two_ready) t) two_ready.tasks ≡ true)
unfolding claim_ready_task connect gets modify pure ◌>>=◌ ◌>>◌ select_ready sort_by_id insert_by_id
    run_all set_running update_where
claim_ready_task-due_example = claim_ready_task-due 1 two_ready {cs = claim_of first ∷ []} refl

abbrev exhausted : TaskExecution
exhausted = record (row 1 (codes "a") Status.failed 0) { attempt = 3 }

abbrev failed_run : Db
failed_run = database BackendType.sqlite (exhausted ∷ second ∷ [])

abbrev stats : RetryStats
stats = record {
  tasks_with_retries = 1;
  total_retries = 2;
  max_attempts_used = 3;
  tasks_exhausted_retries = 1;
}

get_retry_stats_lem_example : Counts stats (exhausted ∷ []) (exhausted ∷ second ∷ [])
unfolding get_retry_stats get_exhausted_retry_tasks get_all_tasks_for_pipeline count_tasks connect
    gets pure ◌>>=◌ ◌>>◌
get_retry_stats_lem_example =
    get_retry_stats_lem 7 failed_run {stats = stats} {exhausted = exhausted ∷ []}
      {all = exhausted ∷ second ∷ []} refl refl refl
