-- ===== src/Dispatcher/Attempts.antt =====
-- How often a task is tried.
use cloacina.Common.{ℕ, ◌≡◌, Bool, true, List, all, leb}
use cloacina.Store.Rows.{TaskExecution}
use cloacina.Store.Monad.{Db}
use cloacina.Store.Keeps.{Keeps}
use cloacina.Store.Tasks
use cloacina.Store.Tasks.{update_task}

-- Every row's attempt is at most `n`.
abbrev pub within : ℕ → List TaskExecution → Bool
within n rows = all (λ t. leb t.attempt n) rows

unfoldable Within : ℕ → Db → Db → Type 0
Within n a b = within n a.tasks ≡ true → within n b.tasks ≡ true
