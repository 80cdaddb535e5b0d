-- ===== src/Store/Statistics.antt =====
-- The queries that count rows.
use cloacina.Common.{
  ℕ, ◌+◌, ◌-◌, ◌≡◌, refl, ap, ◌∙◌, sym, List, [], ◌∷◌, Bool, true, false, filter, length, arith, ok,
  if◌then◌else◌, ltb, ok-injective, subst,
}
use cloacina.Store.Rows.{TaskExecution, status_eq}
use cloacina.Store.Monad.{Db}
use cloacina.Store.Runs.{>>=-ok, pure-ok}
use cloacina.Store.Queries.{
  RetryStats, is_exhausted, count_task, count_tasks, no_retries, get_retry_stats,
  get_exhausted_retry_tasks, get_all_tasks_for_pipeline,
}

-- The attempts after the first of each task, and the greatest attempt.
abbrev pub retries : List TaskExecution → ℕ
retries [] = 0
retries (t ∷ ts) = (t.attempt - 1) + retries ts

abbrev pub greatest : List TaskExecution → ℕ → ℕ
greatest [] n = n
greatest (t ∷ ts) n = greatest ts (if ltb n t.attempt then t.attempt else n)

count_tasks_lem :
    (ts : List TaskExecution) (s : RetryStats)
    → ((count_tasks ts s).tasks_with_retries
        ≡ s.tasks_with_retries + length (filter (λ t. ltb 1 t.attempt) ts))
      × ((count_tasks ts s).total_retries ≡ s.total_retries + retries ts)
      × ((count_tasks ts s).max_attempts_used ≡ greatest ts s.max_attempts_used)
      × ((count_tasks ts s).tasks_exhausted_retries
          ≡ s.tasks_exhausted_retries + length (filter is_exhausted ts))
unfolding count_tasks
count_tasks_lem [] s = (omega arith, omega arith, refl, omega arith)
count_tasks_lem (t ∷ ts) s =
    let r = count_tasks_lem ts (count_task s t) in
    (
      ground (arith, r.0),
      ground (arith, r.1),
      r.2,
      r.3 ∙ bump (is_exhausted t) s.tasks_exhausted_retries,
    )
  where
    bump :
        (b : Bool) (n : ℕ)
        → (if b then n + 1 else n) + length (filter is_exhausted ts)
          ≡ n + length (if b then t ∷ filter is_exhausted ts else filter is_exhausted ts)
    bump true n = omega arith
    bump false n = refl

-- What the numbers say of the rows and of the exhausted ones.
abbrev pub Counts : RetryStats → List TaskExecution → List TaskExecution → Type 0
Counts stats exhausted rows =
    (stats.tasks_exhausted_retries ≡ length exhausted)
    × (stats.tasks_with_retries ≡ length (filter (λ t. ltb 1 t.attempt) rows))
    × (stats.total_retries ≡ retries rows)
    × (stats.max_attempts_used ≡ greatest rows 0)

count_tasks-Counts :
    (rows : List TaskExecution)
    → Counts (count_tasks rows no_retries) (filter is_exhausted rows) rows
count_tasks-Counts rows =
    let c = count_tasks_lem rows no_retries in
    (omega (arith, c.3), omega (arith, c.0), omega (arith, c.1), c.2)

-- The statistics of a pipeline and the list of its exhausted tasks, asked of the same database,
-- agree: the number of exhausted tasks is the list's length, the other numbers are those of the
-- pipeline's rows, and a retry is an attempt after the first.
pub get_retry_stats_lem :
    (i : ℕ) (db : Db) {stats : RetryStats} {exhausted all : List TaskExecution}
    → (get_retry_stats i db).0 ≡ ok stats
    → (get_exhausted_retry_tasks i db).0 ≡ ok exhausted
    → (get_all_tasks_for_pipeline i db).0 ≡ ok all
    → Counts stats exhausted all
unfolding get_retry_stats get_exhausted_retry_tasks
get_retry_stats_lem i db {stats} {exhausted} {all} h k l =
    let a = >>=-ok (get_all_tasks_for_pipeline i) _ db h in
    let b = >>=-ok (get_all_tasks_for_pipeline i) _ db k in
    let rows = ok-injective (sym a.1 ∙ l) in
    let rows' = ok-injective (sym b.1 ∙ l) in
    subst (λ x. Counts x exhausted all)
      (ap (λ r. count_tasks r no_retries) (sym rows) ∙ pure-ok _ _ a.2)
      (subst (λ x. Counts (count_tasks all no_retries) x all)
        (ap (filter is_exhausted) (sym rows') ∙ pure-ok _ _ b.2) (count_tasks-Counts all))
