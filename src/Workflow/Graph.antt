-- ===== src/Workflow/Graph.antt =====
-- crates/cloacina/src/workflow/graph.rs: `DependencyGraph`, and the petgraph graph that it builds
-- for `is_cyclic_directed` and `toposort`, which are parameters.
use cloacina.Common.{
  ℕ, zero, suc, Bool, true, false, List, [], ◌∷◌, ◌++◌, map, Option, none, some, ◌==◌,
  if◌then◌else◌,
}
use cloacina.Common.Dict
use cloacina.Common.Dict.{HashMap, keys, set_insert, set_remove, contains}
use cloacina.Namespace.{TaskNamespace, namespace_eq, to_string}
use cloacina.Store.Monad.{ValidationError}
use cloacina.Common.{Result, ok, err, length, ◌+◌}

pub record DependencyGraph : Type 0 where
  pub nodes : List TaskNamespace
  pub edges : HashMap TaskNamespace (List TaskNamespace)

abbrev pub empty : DependencyGraph
empty = record { nodes = []; edges = [] }

abbrev pub or_default : Option (List TaskNamespace) → List TaskNamespace
or_default none = []
or_default (some deps) = deps

-- `edges.get(n)`, with no entry read as no dependency.
abbrev pub deps_of : DependencyGraph → TaskNamespace → List TaskNamespace
deps_of g node_id = or_default (Dict.get node_id g.edges)

unfoldable pub add_node : TaskNamespace → DependencyGraph → DependencyGraph
add_node node_id g = record {
  nodes = set_insert node_id g.nodes;
  edges = Dict.insert node_id (deps_of g node_id) g.edges;
}

unfoldable pub add_edge : TaskNamespace → TaskNamespace → DependencyGraph → DependencyGraph
add_edge from to g = record {
  nodes = set_insert to (set_insert from g.nodes);
  edges = Dict.insert from (deps_of g from ++ to ∷ []) g.edges;
}

-- `retain(|dep| dep != node_id)` on every list.
unfoldable pub retain_all :
    TaskNamespace
    → HashMap TaskNamespace (List TaskNamespace)
    → HashMap TaskNamespace (List TaskNamespace)
retain_all node_id [] = []
retain_all node_id ((k, deps) ∷ m) = (k, set_remove node_id deps) ∷ retain_all node_id m

unfoldable pub remove_node : TaskNamespace → DependencyGraph → DependencyGraph
remove_node node_id g = record {
  nodes = set_remove node_id g.nodes;
  edges = retain_all node_id (Dict.remove node_id g.edges);
}

unfoldable pub remove_edge : TaskNamespace → TaskNamespace → DependencyGraph → DependencyGraph
remove_edge from to g = elim (Dict.get from g.edges) [
  | none ↦ g
  | some deps ↦ record g { edges = Dict.insert from (set_remove to deps) g.edges }
]

unfoldable pub get_dependencies : TaskNamespace → DependencyGraph → Option (List TaskNamespace)
get_dependencies node_id g = Dict.get node_id g.edges

unfoldable pub dependents_in :
    TaskNamespace → HashMap TaskNamespace (List TaskNamespace) → List TaskNamespace
dependents_in node_id [] = []
dependents_in node_id ((k, deps) ∷ m) =
    if contains node_id deps then k ∷ dependents_in node_id m else dependents_in node_id m

unfoldable pub get_dependents : TaskNamespace → DependencyGraph → List TaskNamespace
get_dependents node_id g = dependents_in node_id g.edges

-- petgraph's `Graph::<TaskNamespace, (), Directed>` as the calls of `add_node` and `add_edge` made
-- it. The weights are distinct, so an index is named by the weight that it carries.
pub record Digraph : Type 0 where
  pub weights : List TaskNamespace
  pub arcs : List (TaskNamespace × TaskNamespace)

-- The inner loop: an edge from each dependency that is a node to the dependent.
unfoldable pub arcs_into :
    List TaskNamespace → TaskNamespace → List TaskNamespace → List (TaskNamespace × TaskNamespace)
arcs_into nodes from [] = []
arcs_into nodes from (dep ∷ deps) =
    if contains dep nodes
    then (dep, from) ∷ arcs_into nodes from deps
    else arcs_into nodes from deps

unfoldable pub arcs_of :
    List TaskNamespace
    → HashMap TaskNamespace (List TaskNamespace)
    → List (TaskNamespace × TaskNamespace)
arcs_of nodes [] = []
arcs_of nodes ((from, deps) ∷ m) =
    if contains from nodes then arcs_into nodes from deps ++ arcs_of nodes m else arcs_of nodes m

unfoldable pub to_digraph : DependencyGraph → Digraph
to_digraph g = record { weights = g.nodes; arcs = arcs_of g.nodes g.edges }

-- petgraph's two algorithms, as the program calls them.
pub record Petgraph : Type 0 where
  pub is_cyclic_directed : Digraph → Bool
  pub toposort : Digraph → Option (List TaskNamespace)

-- The depth-first search for a cycle: the sets `visited` and `rec_stack`, and `path`. `diverged` is
-- the outcome of a search whose fuel is too small.
pub record Dfs : Type 0 where
  pub visited : List TaskNamespace
  pub rec_stack : List TaskNamespace
  pub path : List TaskNamespace

pub data Search : Type 0 where
  found : (cycle : List TaskNamespace) → Search
  exhausted : Dfs → Search
  diverged : Search

-- `path[cycle_start..]`, where `cycle_start` is the position of `dep` or 0.
unfoldable pub suffix_from : TaskNamespace → List TaskNamespace → Option (List TaskNamespace)
suffix_from dep [] = none
suffix_from dep (x ∷ path) = if x == dep then some (x ∷ path) else suffix_from dep path

abbrev or_all : List TaskNamespace → Option (List TaskNamespace) → List TaskNamespace
or_all path none = path
or_all path (some suffix) = suffix

abbrev pub cycle_at : TaskNamespace → List TaskNamespace → List TaskNamespace
cycle_at dep path = or_all path (suffix_from dep path) ++ dep ∷ []

-- `path.pop()`
unfoldable pub pop : List TaskNamespace → List TaskNamespace
pop [] = []
pop (x ∷ []) = []
pop (x ∷ y ∷ path) = x ∷ pop (y ∷ path)

-- The loop over the dependencies of one node; `visit` is the recursive call.
unfoldable pub scan_deps : (TaskNamespace → Dfs → Search) → List TaskNamespace → Dfs → Search
scan_deps visit [] s = exhausted s
scan_deps visit (dep ∷ deps) s = elim (contains dep s.visited) [
  | false ↦ elim (visit dep s) [
    | found cycle ↦ found cycle
    | exhausted s' ↦ scan_deps visit deps s'
    | diverged ↦ diverged
  ]
  | true ↦ elim (contains dep s.rec_stack) [
    | true ↦ found (cycle_at dep s.path)
    | false ↦ scan_deps visit deps s
  ]
]

abbrev pub enter : TaskNamespace → Dfs → Dfs
enter node s = record {
  visited = set_insert node s.visited;
  rec_stack = set_insert node s.rec_stack;
  path = s.path ++ node ∷ [];
}

abbrev pub leave : TaskNamespace → Search → Search
leave node (found cycle) = found cycle
leave node (exhausted s) =
    exhausted (record s { rec_stack = set_remove node s.rec_stack; path = pop s.path })
leave node diverged = diverged

unfoldable pub dfs_cycle : ℕ → DependencyGraph → TaskNamespace → Dfs → Search
dfs_cycle zero g node s = diverged
dfs_cycle (suc fuel) g node s =
    leave node (scan_deps (dfs_cycle fuel g) (deps_of g node) (enter node s))

unfoldable pub find_from : ℕ → DependencyGraph → List TaskNamespace → Dfs → Search
find_from fuel g [] s = exhausted s
find_from fuel g (node ∷ nodes) s = elim (contains node s.visited) [
  | true ↦ find_from fuel g nodes s
  | false ↦ elim (dfs_cycle fuel g node s) [
    | found cycle ↦ found cycle
    | exhausted s' ↦ find_from fuel g nodes s'
    | diverged ↦ diverged
  ]
]

abbrev pub start : Dfs
start = record { visited = []; rec_stack = []; path = [] }

-- Each nested call marks one more dependency as visited, so their number bounds the depth.
unfoldable pub all_deps : HashMap TaskNamespace (List TaskNamespace) → List TaskNamespace
all_deps [] = []
all_deps ((k, deps) ∷ m) = deps ++ all_deps m

abbrev pub fuel_of : DependencyGraph → ℕ
fuel_of g = suc (length g.nodes + length (all_deps g.edges))

abbrev pub found? : Search → Option (List TaskNamespace)
found? (found cycle) = some cycle
found? (exhausted s) = none
found? diverged = none

unfoldable pub find_cycle : DependencyGraph → Option (List TaskNamespace)
find_cycle g = found? (find_from (fuel_of g) g g.nodes start)

-- The error that carries `find_cycle().unwrap_or_default()`, printed.
abbrev pub cyclic : DependencyGraph → ValidationError
cyclic g = ValidationError.cyclic_dependency (map to_string (or_default (find_cycle g)))

module _ (petgraph : Petgraph) where
  unfoldable pub has_cycles : DependencyGraph → Bool
  has_cycles g = petgraph.is_cyclic_directed (to_digraph g)

  abbrev pub of_toposort :
      DependencyGraph → Option (List TaskNamespace) → Result ValidationError (List TaskNamespace)
  of_toposort g none = err (cyclic g)
  of_toposort g (some sorted) = ok sorted

  unfoldable pub topological_sort : DependencyGraph → Result ValidationError (List TaskNamespace)
  unfolding has_cycles
  topological_sort g =
      if has_cycles g then err (cyclic g) else of_toposort g (petgraph.toposort (to_digraph g))
