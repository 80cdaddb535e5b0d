-- ===== src/Workflow/Levels.antt =====
-- crates/cloacina/src/workflow/mod.rs: the levels of tasks that may run in parallel.
use cloacina.Common.{
  ℕ, zero, suc, Bool, false, not, List, [], ◌∷◌, ◌++◌, Option, none, some, filter, all, mem, length,
  Result, ok, err,
}
use cloacina.Common.Dict
use cloacina.Common.Dict.{HashMap, contains, keys}
use cloacina.Namespace.{TaskNamespace, namespace_eq}
use cloacina.Store.Monad.{ValidationError}
use cloacina.Workflow.Graph.{Petgraph}
use cloacina.Workflow.Tasks
use cloacina.Workflow.Tasks.{Task, Workflow}

unfoldable pub get_task_ids : Workflow → List TaskNamespace
get_task_ids w = keys w.tasks

abbrev pub done_in : List TaskNamespace → Option Task → Bool
done_in completed none = false
done_in completed (some task) = all (λ dep. contains dep completed) task.dependencies

-- `all_deps_done` of a task that the workflow has.
unfoldable pub all_deps_done :
    HashMap TaskNamespace Task → List TaskNamespace → TaskNamespace → Bool
all_deps_done tasks completed ns = done_in completed (Dict.get ns tasks)

abbrev pub current_level :
    HashMap TaskNamespace Task → List TaskNamespace → List TaskNamespace → List TaskNamespace
current_level tasks completed remaining = filter (all_deps_done tasks completed) remaining

abbrev cons_level :
    List TaskNamespace → Option (List (List TaskNamespace)) → Option (List (List TaskNamespace))
cons_level level none = none
cons_level level (some levels) = some (level ∷ levels)

-- The loop while tasks remain, on fuel: `none` is a loop that does not end. The members of a level
-- are new to `completed`.
unfoldable pub levels_from :
    ℕ
    → HashMap TaskNamespace Task
    → List TaskNamespace
    → List TaskNamespace
    → Option (List (List TaskNamespace))
levels_from fuel tasks completed [] = some []
levels_from zero tasks completed (n ∷ ns) = none
levels_from (suc fuel) tasks completed (n ∷ ns) =
    let level = current_level tasks completed (n ∷ ns) in
    cons_level level
      (levels_from fuel tasks (level ++ completed) (filter (λ m. not (mem m level)) (n ∷ ns)))

abbrev pub as_ok :
    Option (List (List TaskNamespace)) → Option (Result ValidationError (List (List TaskNamespace)))
as_ok none = none
as_ok (some levels) = some (ok levels)

abbrev pub levels_of :
    Workflow
    → Result ValidationError (List TaskNamespace)
    → Option (Result ValidationError (List (List TaskNamespace)))
levels_of w (err e) = some (err e)
levels_of w (ok sorted) = as_ok (levels_from (length sorted) w.tasks [] sorted)

unfoldable pub get_execution_levels :
    Petgraph → Workflow → Option (Result ValidationError (List (List TaskNamespace)))
get_execution_levels petgraph w = levels_of w (Tasks.topological_sort petgraph w)
