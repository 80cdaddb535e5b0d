-- ===== src/Workflow/WellFormed.antt =====
-- The dependency graph names only its own nodes, and the order that petgraph gives respects it.
use cloacina.Common.{
  ◌≡◌, refl, subst, true, false, List, [], ◌∷◌, Option, none, some, mem, ◌==◌, arith, Bool-cases,
  inl, inr, ==_refl, All, All-map, All-append, Text, ok, ok-injective, err-ok,
}
use cloacina.Common.Dict
use cloacina.Common.Dict.{
  HashMap, set_insert, set_remove, mem-set_insert, mem-set_remove, contains, contains_key,
}
use cloacina.Namespace.{TaskNamespace, namespace_eq}
use cloacina.Workflow.Graph.{
  DependencyGraph, deps_of, or_default, add_node, add_edge, retain_all, remove_node, remove_edge,
}
use cloacina.Workflow.Tasks
use cloacina.Workflow.Tasks.{
  Workflow, WorkflowError, Task, add_edges, add_task, remove_task, remove_dependency,
}

abbrev pub Within : List TaskNamespace → List TaskNamespace → Type 0
Within nodes deps = All (λ d. mem d nodes ≡ true) deps

abbrev pub EntryWithin : List TaskNamespace → TaskNamespace × List TaskNamespace → Type 0
EntryWithin nodes e = (mem e.0 nodes ≡ true) × Within nodes e.1

-- Every key of `edges` and every dependency in it is a node.
unfoldable pub WellFormed : DependencyGraph → Type 0
WellFormed g = All (EntryWithin g.nodes) g.edges

weaken :
    (nodes nodes' : List TaskNamespace)
    → ((d : TaskNamespace) → mem d nodes ≡ true → mem d nodes' ≡ true)
    → (edges : HashMap TaskNamespace (List TaskNamespace)) → All (EntryWithin nodes) edges
    → All (EntryWithin nodes') edges
weaken nodes nodes' f edges h = All-map edges (λ e p. (f e.0 p.0, All-map e.1 f p.1)) h

deps_of-Within :
    (g : DependencyGraph) (n : TaskNamespace) → WellFormed g → Within g.nodes (deps_of g n)
unfolding WellFormed
deps_of-Within g n h = go (Dict.get n g.edges) refl
  where
    go : (o : Option (List TaskNamespace)) → Dict.get n g.edges ≡ o → Within g.nodes (or_default o)
    go none e = tt
    go (some deps) e = (Dict.get-All (EntryWithin g.nodes) n g.edges h e).1

add_node-WellFormed :
    (n : TaskNamespace) (g : DependencyGraph) → WellFormed g → WellFormed (add_node n g)
unfolding WellFormed add_node
add_node-WellFormed n g h =
    let wider = λ (d : TaskNamespace) (m : mem d g.nodes ≡ true). old d m in
    Dict.All-insert (EntryWithin (set_insert n g.nodes)) n (deps_of g n) g.edges
      (
        ground (arith, mem-set_insert n n g.nodes, ==_refl n),
        All-map (deps_of g n) wider (deps_of-Within g n h),
      )
      (weaken g.nodes _ wider g.edges h)
  where
    old : (d : TaskNamespace) → mem d g.nodes ≡ true → mem d (set_insert n g.nodes) ≡ true
    old d m = ground (arith, mem-set_insert n d g.nodes)

add_edge-WellFormed :
    (from to : TaskNamespace) (g : DependencyGraph) → WellFormed g → WellFormed (add_edge from to g)
unfolding WellFormed add_edge
add_edge-WellFormed from to g h =
    Dict.All-insert (EntryWithin nodes) from _ g.edges
      (
        ground (
          arith,
          mem-set_insert to from (set_insert from g.nodes),
          mem-set_insert from from g.nodes,
          ==_refl from,
        ),
        All-append _ (deps_of g from) (to ∷ [])
            (All-map (deps_of g from) old (deps_of-Within g from h))
            (ground (arith, mem-set_insert to to (set_insert from g.nodes), ==_refl to), tt),
      )
      (weaken g.nodes _ old g.edges h)
  where
    nodes : List TaskNamespace
    nodes = set_insert to (set_insert from g.nodes)

    old : (d : TaskNamespace) → mem d g.nodes ≡ true → mem d nodes ≡ true
    old d m =
        ground (arith, mem-set_insert to d (set_insert from g.nodes), mem-set_insert from d g.nodes)

set_remove-Within :
    (n : TaskNamespace) (nodes deps : List TaskNamespace)
    → Within nodes deps
    → Within (set_remove n nodes) (set_remove n deps)
unfolding set_remove
set_remove-Within n nodes [] h = tt
set_remove-Within n nodes (d ∷ deps) h = elim (Bool-cases (d == n)) [
  | inl gone ↦ rw gone (set_remove-Within n nodes deps h.1)
  | inr kept ↦ rw kept (mem-kept d kept h.0, set_remove-Within n nodes deps h.1)
]
  where
    mem-kept :
        (d : TaskNamespace)
        → (d == n) ≡ false
        → mem d nodes ≡ true
        → mem d (set_remove n nodes) ≡ true
    mem-kept d k m = ground (arith, mem-set_remove n d nodes)

retain_all-Within :
    (n : TaskNamespace) (nodes : List TaskNamespace)
    (edges : HashMap TaskNamespace (List TaskNamespace))
    → All (λ e. EntryWithin nodes e × ((e.0 == n) ≡ false)) edges
    → All (EntryWithin (set_remove n nodes)) (retain_all n edges)
unfolding retain_all
retain_all-Within n nodes [] h = tt
retain_all-Within n nodes ((k, deps) ∷ edges) h = (
  (ground (arith, mem-set_remove n k nodes), set_remove-Within n nodes deps h.0.0.1),
  retain_all-Within n nodes edges h.1,
)

remove_node-WellFormed :
    (n : TaskNamespace) (g : DependencyGraph) → WellFormed g → WellFormed (remove_node n g)
unfolding WellFormed remove_node
remove_node-WellFormed n g h =
    retain_all-Within n g.nodes (Dict.remove n g.edges) (Dict.All-remove _ n g.edges h)

less-Within :
    (nodes deps : List TaskNamespace) (n : TaskNamespace)
    → Within nodes deps
    → Within nodes (set_remove n deps)
unfolding set_remove
less-Within nodes [] n h = tt
less-Within nodes (d ∷ deps) n h = elim (Bool-cases (d == n)) [
  | inl gone ↦ rw gone (less-Within nodes deps n h.1)
  | inr kept ↦ rw kept (h.0, less-Within nodes deps n h.1)
]

remove_edge-WellFormed :
    (from to : TaskNamespace) (g : DependencyGraph)
    → WellFormed g
    → WellFormed (remove_edge from to g)
unfolding WellFormed remove_edge
remove_edge-WellFormed from to g h = go (Dict.get from g.edges) refl
  where
    go :
        (o : Option (List TaskNamespace))
        → Dict.get from g.edges ≡ o
        → WellFormed (elim o [
          | none ↦ g
          | some deps ↦ record g { edges = Dict.insert from (set_remove to deps) g.edges }
        ])
    go none e = h
    go (some deps) e =
        let p = Dict.get-All (EntryWithin g.nodes) from g.edges h e in
        Dict.All-insert (EntryWithin g.nodes) from _ g.edges (p.0, less-Within g.nodes deps to p.1)
          h

add_edges-WellFormed :
    (from : TaskNamespace) (deps : List TaskNamespace) (g : DependencyGraph)
    → WellFormed g
    → WellFormed (add_edges from deps g)
unfolding add_edges
add_edges-WellFormed from [] g h = h
add_edges-WellFormed from (d ∷ deps) g h =
    add_edges-WellFormed from deps _ (add_edge-WellFormed from d g h)

add_task-WellFormed :
    (task : Task) (w w' : Workflow)
    → add_task task w ≡ ok w'
    → WellFormed w.dependency_graph
    → WellFormed w'.dependency_graph
unfolding add_task
add_task-WellFormed task w w' e h =
    elim (Bool-cases (contains_key (Tasks.namespace_of w task) w.tasks)) [
      | inl there ↦ absurd (err-ok (rw there at e))
      | inr new ↦
          subst (λ (v : Workflow). WellFormed v.dependency_graph) (ok-injective (rw new at e))
            (add_edges-WellFormed _ task.dependencies _
              (add_node-WellFormed _ w.dependency_graph h))
    ]

-- One call of an operation that changes the workflow.
pub data Edit : Workflow → Workflow → Type 0 where
  added : {w w' : Workflow} (task : Task) → add_task task w ≡ ok w' → Edit w w'
  removed : {w : Workflow} (namespace : TaskNamespace) → Edit w (remove_task namespace w).0
  cut : {w : Workflow} (from to : TaskNamespace) → Edit w (remove_dependency from to w)
  tenant : {w : Workflow} (name : Text) → Edit w (Tasks.set_tenant name w)
  packaged : {w : Workflow} (name : Text) → Edit w (Tasks.set_package name w)

-- The workflows that a new one becomes.
pub data Built : Workflow → Type 0 where
  fresh : (name : Text) → Built (Tasks.new name)
  edited : {w w' : Workflow} → Built w → Edit w w' → Built w'

Edit-WellFormed :
    {w w' : Workflow} → Edit w w' → WellFormed w.dependency_graph → WellFormed w'.dependency_graph
unfolding remove_task remove_dependency Tasks.set_tenant Tasks.set_package
Edit-WellFormed {w} {w'} (added task e) h = add_task-WellFormed task w w' e h
Edit-WellFormed {w} (removed namespace) h = remove_node-WellFormed namespace w.dependency_graph h
Edit-WellFormed {w} (cut from to) h = remove_edge-WellFormed from to w.dependency_graph h
Edit-WellFormed (tenant name) h = h
Edit-WellFormed (packaged name) h = h

-- However a workflow was built, by adding tasks, removing tasks and dependencies, and naming its
-- tenant and package in between, its dependency graph lists no dependency, and holds no entry, of a
-- node that the graph does not have.
pub Built-WellFormed : (w : Workflow) → Built w → WellFormed w.dependency_graph
unfolding Tasks.new WellFormed
Built-WellFormed w (fresh name) = tt
Built-WellFormed w (edited {w = v} b e) = Edit-WellFormed e (Built-WellFormed v b)
