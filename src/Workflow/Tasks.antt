-- ===== src/Workflow/Tasks.antt =====
-- crates/cloacina/src/workflow/mod.rs: the workflow and its operations, but for the execution
-- levels, which are beside this file, the searches over tasks and the version hash. The trait object `Arc<dyn Task>` is a
-- record of what its methods answer. The error of a refused task carries its namespace.
use cloacina.Common.{
  ℕ, not, List, [], ◌∷◌, ◌++◌, Option, none, some, Text, codes, if◌then◌else◌, filter, Result, ok,
  err, is_empty, text_eq,
}
use cloacina.Common.Dict
use cloacina.Common.Dict.{HashMap, keys, values, contains_key, contains, is_some}
use cloacina.Namespace.{TaskNamespace, namespace_eq, to_string}
use cloacina.Namespace
use cloacina.Store.Monad.{ValidationError}
use cloacina.Workflow.Graph
use cloacina.Workflow.Graph.{DependencyGraph, Petgraph}

pub record Task : Type 0 where
  pub id : Text
  pub dependencies : List TaskNamespace
  pub trigger_rules : Text
  pub max_attempts : ℕ

pub record WorkflowMetadata : Type 0 where
  pub version : Text
  pub description : Option Text
  pub tags : HashMap Text Text

pub record Workflow : Type 0 where
  pub name : Text
  pub tenant : Text
  pub «package» : Text
  pub tasks : HashMap TaskNamespace Task
  pub dependency_graph : DependencyGraph
  pub metadata : WorkflowMetadata

pub data WorkflowError : Type 0 where
  duplicate_task task_not_found : TaskNamespace → WorkflowError

unfoldable pub new : Text → Workflow
new name = record {
  name = name;
  tenant = codes "public";
  «package» = codes "embedded";
  tasks = [];
  dependency_graph = Graph.empty;
  metadata = record { version = []; description = none; tags = [] };
}

unfoldable pub set_tenant : Text → Workflow → Workflow
set_tenant tenant w = record w { tenant = tenant }

unfoldable pub set_package : Text → Workflow → Workflow
set_package name w = record w { «package» = name }

unfoldable pub set_version : Text → Workflow → Workflow
set_version version w = record w { metadata = record (w.metadata) { version = version } }

unfoldable pub set_description : Text → Workflow → Workflow
set_description description w = record w {
  metadata = record (w.metadata) { description = some description };
}

unfoldable pub add_tag : Text → Text → Workflow → Workflow
add_tag key value w = record w {
  metadata = record (w.metadata) { tags = Dict.insert key value w.metadata.tags };
}

unfoldable pub remove_tag : Text → Workflow → Workflow × Option Text
remove_tag key w = (
  record w { metadata = record (w.metadata) { tags = Dict.remove key w.metadata.tags } },
  Dict.get key w.metadata.tags,
)

-- The loop of `add_edge` over a task's dependencies.
unfoldable pub add_edges : TaskNamespace → List TaskNamespace → DependencyGraph → DependencyGraph
add_edges from [] g = g
add_edges from (dep ∷ deps) g = add_edges from deps (Graph.add_edge from dep g)

abbrev pub namespace_of : Workflow → Task → TaskNamespace
namespace_of w task = Namespace.new w.tenant w.«package» w.name task.id

unfoldable pub add_task : Task → Workflow → Result WorkflowError Workflow
add_task task w =
    let ns = namespace_of w task in
    if contains_key ns w.tasks
    then err (duplicate_task ns)
    else ok (record w {
      dependency_graph = add_edges ns task.dependencies (Graph.add_node ns w.dependency_graph);
      tasks = Dict.insert ns task w.tasks;
    })

unfoldable pub remove_task : TaskNamespace → Workflow → Workflow × Option Task
remove_task namespace w = (
  record w {
    dependency_graph = Graph.remove_node namespace w.dependency_graph;
    tasks = Dict.remove namespace w.tasks;
  },
  Dict.get namespace w.tasks,
)

unfoldable pub remove_dependency : TaskNamespace → TaskNamespace → Workflow → Workflow
remove_dependency from_task to_task w = record w {
  dependency_graph = Graph.remove_edge from_task to_task w.dependency_graph;
}

-- The first dependency of a task that is no task of the workflow.
unfoldable pub first_missing :
    HashMap TaskNamespace Task → List TaskNamespace → Option TaskNamespace
first_missing tasks [] = none
first_missing tasks (dep ∷ deps) =
    if contains_key dep tasks then first_missing tasks deps else some dep

unfoldable pub check_missing :
    HashMap TaskNamespace Task → HashMap TaskNamespace Task → Result ValidationError (Unit {0})
check_missing tasks [] = ok tt
check_missing tasks ((ns, task) ∷ m) = elim (first_missing tasks task.dependencies) [
  | some dep ↦ err (ValidationError.missing_dependency (to_string ns) (to_string dep))
  | none ↦ check_missing tasks m
]

module _ (petgraph : Petgraph) where
  abbrev check_cycles : Workflow → Result ValidationError (Unit {0})
  check_cycles w =
      if Graph.has_cycles petgraph w.dependency_graph
      then err (Graph.cyclic w.dependency_graph)
      else ok tt

  abbrev check_rest :
      Workflow → Result ValidationError (Unit {0}) → Result ValidationError (Unit {0})
  check_rest w (err e) = err e
  check_rest w (ok _) = check_cycles w

  unfoldable pub validate : Workflow → Result ValidationError (Unit {0})
  validate w =
      if is_empty w.tasks
      then err ValidationError.empty_workflow
      else check_rest w (check_missing w.tasks w.tasks)

  abbrev then_sort :
      Workflow → Result ValidationError (Unit {0}) → Result ValidationError (List TaskNamespace)
  then_sort w (err e) = err e
  then_sort w (ok _) = Graph.topological_sort petgraph w.dependency_graph

  unfoldable pub topological_sort : Workflow → Result ValidationError (List TaskNamespace)
  unfolding validate
  topological_sort w = then_sort w (validate w)

abbrev of_task : {A : Type 0} → TaskNamespace → (Task → A) → Option Task → Result WorkflowError A
of_task namespace f none = err (task_not_found namespace)
of_task namespace f (some task) = ok (f task)

unfoldable pub get_task : TaskNamespace → Workflow → Result WorkflowError Task
get_task namespace w = of_task namespace (λ task. task) (Dict.get namespace w.tasks)

unfoldable pub get_dependencies :
    TaskNamespace → Workflow → Result WorkflowError (List TaskNamespace)
get_dependencies namespace w =
    of_task namespace (λ task. task.dependencies) (Dict.get namespace w.tasks)

unfoldable pub get_dependents : TaskNamespace → Workflow → Result WorkflowError (List TaskNamespace)
get_dependents namespace w =
    if contains_key namespace w.tasks
    then ok (Graph.get_dependents namespace w.dependency_graph)
    else err (task_not_found namespace)

unfoldable pub roots_in : HashMap TaskNamespace Task → List TaskNamespace
roots_in [] = []
roots_in ((ns, task) ∷ m) = if is_empty task.dependencies then ns ∷ roots_in m else roots_in m

unfoldable pub get_roots : Workflow → List TaskNamespace
get_roots w = roots_in w.tasks

-- The set `all_dependencies`.
unfoldable pub deps_in : HashMap TaskNamespace Task → List TaskNamespace
deps_in [] = []
deps_in ((ns, task) ∷ m) = task.dependencies ++ deps_in m

unfoldable pub get_leaves : Workflow → List TaskNamespace
get_leaves w = filter (λ ns. not (contains ns (deps_in w.tasks))) (keys w.tasks)
