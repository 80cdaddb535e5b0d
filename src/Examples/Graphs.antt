-- ===== src/Examples/Graphs.antt =====
-- The workflow and its graph: crates/cloacina/src/workflow.
use cloacina.Common.{
  ok, mem, any, some, ◌≡◌, refl, codes, [], ◌∷◌, List, true, all, text_beq, Bool-cases, inl, inr,
  some-injective, subst, arith,
}
use cloacina.Common.Dict
use cloacina.Namespace.{TaskNamespace, namespace_beq, namespace_eq}
use cloacina.Workflow.Graph.{
  DependencyGraph, add_node, find_cycle, find_from, fuel_of, start, diverged, topological_sort,
  has_cycles, scan_deps, dfs_cycle, suffix_from, to_digraph, arcs_of, arcs_into, all_deps,
}
use cloacina.Workflow.Tasks
use cloacina.Workflow.Tasks.{Workflow, add_task, remove_dependency}
use cloacina.Workflow.WellFormed.{WellFormed, fresh, edited, added, cut, Built-WellFormed}
use cloacina.Workflow.Order.{Sorts, arc, before, topological_sort-before}
use cloacina.Workflow.Cycles.{Closed, find_cycle-Closed}
use cloacina.Workflow.CycleFuel.{find_from-ends}
use cloacina.Workflow.Levels.{get_execution_levels, all_deps_done}
use cloacina.Workflow.Layering.{Layered, DependenciesFirst, get_execution_levels-Layered}
use cloacina.Examples.Samples.{etl, petgraph, in_order, extract_ns, load_ns, etl_graph, task_of}

all-arc :
    (a b : TaskNamespace) (order : List TaskNamespace) (arcs : List (TaskNamespace × TaskNamespace))
    → all (λ e. before e.0 e.1 order) arcs ≡ true
    → arc a b arcs ≡ true
    → before a b order ≡ true
all-arc a b order [] h m = absurd (cc)
all-arc a b order (e ∷ arcs) h m =
    ground (arith, all-arc a b order arcs, namespace_eq.decides e.0 a, namespace_eq.decides e.1 b)

petgraph-Sorts : Sorts petgraph
petgraph-Sorts d sorted h a b m = elim (Bool-cases (in_order d)) [
  | inl good ↦
      subst (λ o. before a b o ≡ true) (some-injective (rw good at h))
        (all-arc a b d.weights d.arcs good m)
  | inr bad ↦ let none_some = rw bad at h in absurd (cc)
]

topological_sort-before_example : before extract_ns load_ns (extract_ns ∷ load_ns ∷ []) ≡ true
unfolding topological_sort has_cycles WellFormed to_digraph arcs_of arcs_into namespace_beq text_beq
    Dict.get
topological_sort-before_example =
    topological_sort-before petgraph petgraph-Sorts etl_graph ((refl, tt), ((refl, (refl, tt)), tt))
      (extract_ns ∷ load_ns ∷ []) refl load_ns extract_ns refl

abbrev knot : DependencyGraph
knot = record {
  nodes = extract_ns ∷ load_ns ∷ [];
  edges = (extract_ns, load_ns ∷ []) ∷ (load_ns, extract_ns ∷ []) ∷ [];
}

find_cycle-Closed_example : Closed knot (extract_ns ∷ load_ns ∷ extract_ns ∷ [])
unfolding find_cycle find_from dfs_cycle scan_deps suffix_from all_deps Dict.get Dict.set_insert
    Dict.set_remove namespace_beq text_beq
find_cycle-Closed_example = find_cycle-Closed knot refl

find_from-ends_example : ¬ (find_from (fuel_of knot) knot knot.nodes start ≡ diverged)
find_from-ends_example = find_from-ends knot

abbrev extract : Tasks.Task
extract = task_of (codes "extract") []

abbrev one_ns : TaskNamespace
one_ns = Tasks.namespace_of (Tasks.new (codes "etl")) extract

abbrev one_task : Workflow
one_task = record (Tasks.new (codes "etl")) {
  dependency_graph = record { nodes = one_ns ∷ []; edges = (one_ns, []) ∷ [] };
  tasks = (one_ns, extract) ∷ [];
}

Built-WellFormed_example : WellFormed (remove_dependency load_ns one_ns one_task).dependency_graph
unfolding add_task Tasks.new Tasks.add_edges add_node Dict.get Dict.insert Dict.set_insert
Built-WellFormed_example =
    Built-WellFormed (remove_dependency load_ns one_ns one_task)
      (edited (edited (fresh (codes "etl")) (added extract refl)) (cut load_ns one_ns))

get_execution_levels-Layered_example :
    (levels : List (List TaskNamespace)) × (get_execution_levels petgraph etl ≡ some (ok levels))
    × Layered etl.tasks [] levels
    × ((m : TaskNamespace)
        → mem m (extract_ns ∷ load_ns ∷ []) ≡ true
        → any (λ l. mem m l) levels ≡ true)
unfolding Tasks.topological_sort Tasks.check_missing Tasks.first_missing Dict.get namespace_beq
    text_beq has_cycles topological_sort to_digraph arcs_of arcs_into DependenciesFirst
    all_deps_done
get_execution_levels-Layered_example =
    get_execution_levels-Layered petgraph etl (extract_ns ∷ load_ns ∷ []) refl (refl, (refl, tt))
