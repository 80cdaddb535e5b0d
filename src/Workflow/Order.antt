-- ===== src/Workflow/Order.antt =====
-- The order of the tasks: petgraph's answer, read as an order on the program's graph.
use cloacina.Common.{
  ◌≡◌, refl, ap, ◌∙◌, sym, Bool, true, false, ◌&&◌, ◌||◌, List, [], ◌∷◌, ◌++◌, Option, none, some,
  any, mem, ◌==◌, arith, Bool-cases, inl, inr, if◌then◌else◌, ==→eq, ==_refl, ok, err, ok-injective,
  err-ok,
}
use cloacina.Common.Dict
use cloacina.Common.Dict.{HashMap, contains}
use cloacina.Namespace.{TaskNamespace, namespace_eq}
use cloacina.Workflow.Graph
use cloacina.Workflow.Graph.{
  DependencyGraph, deps_of, or_default, Digraph, arcs_into, arcs_of, to_digraph, Petgraph,
  has_cycles, of_toposort, cyclic,
}
use cloacina.Workflow.WellFormed.{WellFormed, Within, EntryWithin}

-- Some arc goes from the one to the other.
abbrev pub arc : TaskNamespace → TaskNamespace → List (TaskNamespace × TaskNamespace) → Bool
arc a b arcs = any (λ e. (e.0 == a) && (e.1 == b)) arcs

-- The first place of the one is before a place of the other.
abbrev pub before : TaskNamespace → TaskNamespace → List TaskNamespace → Bool
before a b [] = false
before a b (x ∷ xs) = if x == a then mem b xs else before a b xs

-- What petgraph's `toposort` documents: on an answer, each arc goes from an earlier node to a
-- later one.
abbrev pub Sorts : Petgraph → Type 0
Sorts petgraph =
    (d : Digraph) (sorted : List TaskNamespace)
    → petgraph.toposort d ≡ some sorted
    → (a b : TaskNamespace) → arc a b d.arcs ≡ true
    → before a b sorted ≡ true

arc-append :
    (a b : TaskNamespace) (xs ys : List (TaskNamespace × TaskNamespace))
    → arc a b (xs ++ ys) ≡ (arc a b xs || arc a b ys)
arc-append a b [] ys = refl
arc-append a b (x ∷ xs) ys = ground (arith, arc-append a b xs ys)

arc-arcs_into :
    (nodes : List TaskNamespace) (from dep : TaskNamespace) (deps : List TaskNamespace)
    → mem dep nodes ≡ true
    → mem dep deps ≡ true
    → arc dep from (arcs_into nodes from deps) ≡ true
unfolding arcs_into
arc-arcs_into nodes from dep [] n h = absurd (cc)
arc-arcs_into nodes from dep (d ∷ deps) n h = elim (Bool-cases (d == dep)) [
  | inl here ↦ elim (Bool-cases (contains d nodes)) [
    | inl inside ↦ rw inside (ground (arith, ==_refl from, here))
    | inr outside ↦ absurd (differ (sym (ap (λ e. mem e nodes) (==→eq d dep here) ∙ n) ∙ outside))
  ]
  | inr there ↦ elim (Bool-cases (contains d nodes)) [
    | inl inside ↦ rw inside (ground (arith, arc-arcs_into nodes from dep deps n (ground arith)))
    | inr outside ↦ rw outside (arc-arcs_into nodes from dep deps n (ground arith))
  ]
]
  where
    differ : ¬ (true ≡ false)
    differ e = cc

arc-arcs_of :
    (nodes : List TaskNamespace) (from dep : TaskNamespace)
    (edges : HashMap TaskNamespace (List TaskNamespace))
    → mem from nodes ≡ true
    → mem dep nodes ≡ true
    → mem dep (or_default (Dict.get from edges)) ≡ true
    → arc dep from (arcs_of nodes edges) ≡ true
unfolding arcs_of Dict.get
arc-arcs_of nodes from dep [] f n h = absurd (cc)
arc-arcs_of nodes from dep ((k, deps) ∷ edges) f n h = elim (Bool-cases (k == from)) [
  | inl here ↦
      let same = ==→eq k from here in
      let known = ap (λ v. mem v nodes) same ∙ f in
      rw (known) (
        arc-append dep from (arcs_into nodes k deps) (arcs_of nodes edges)
        ∙ ap (λ b. b || arc dep from (arcs_of nodes edges))
            (ap (λ v. arc dep from (arcs_into nodes v deps)) same
              ∙ arc-arcs_into nodes from dep deps n (rw here at h)))
  | inr there ↦
      let rest = arc-arcs_of nodes from dep edges f n (rw there at h) in
      elim (Bool-cases (contains k nodes)) [
        | inl inside ↦ rw inside (
            arc-append dep from (arcs_into nodes k deps) (arcs_of nodes edges)
            ∙ ground (arith, rest))
        | inr outside ↦ rw outside rest
      ]
]

Within-mem :
    (nodes deps : List TaskNamespace) (d : TaskNamespace)
    → Within nodes deps
    → mem d deps ≡ true
    → mem d nodes ≡ true
Within-mem nodes [] d w m = absurd (cc)
Within-mem nodes (x ∷ deps) d w m = elim (Bool-cases (x == d)) [
  | inl here ↦ ap (λ v. mem v nodes) (sym (==→eq x d here)) ∙ w.0
  | inr there ↦ Within-mem nodes deps d w.1 (rw there at m)
]

known :
    (g : DependencyGraph) (n dep : TaskNamespace)
    → WellFormed g
    → mem dep (deps_of g n) ≡ true
    → (mem n g.nodes ≡ true) × (mem dep g.nodes ≡ true)
unfolding WellFormed
known g n dep wf m = go (Dict.get n g.edges) refl m
  where
    go :
        (o : Option (List TaskNamespace))
        → Dict.get n g.edges ≡ o
        → mem dep (or_default o) ≡ true
        → (mem n g.nodes ≡ true) × (mem dep g.nodes ≡ true)
    go none e k = absurd (cc)
    go (some deps) e k =
        let p = Dict.get-All (EntryWithin g.nodes) n g.edges wf e in
        (p.0, Within-mem g.nodes deps dep p.1 k)

-- If petgraph's sort does what it documents, then in the order that a graph of the program is
-- given, each dependency of a node comes before the node. The graph names only its own nodes, as
-- every built workflow's does: a dependency that is no node would be left out of the sort.
pub topological_sort-before :
    (petgraph : Petgraph)
    → Sorts petgraph
    → (g : DependencyGraph) → WellFormed g
    → (sorted : List TaskNamespace) → Graph.topological_sort petgraph g ≡ ok sorted
    → (n dep : TaskNamespace) → mem dep (deps_of g n) ≡ true
    → before dep n sorted ≡ true
unfolding Graph.topological_sort to_digraph
topological_sort-before petgraph sorts g wf sorted h n dep m =
    sorts (to_digraph g) sorted
      (sorted-of (has_cycles petgraph g) (petgraph.toposort (to_digraph g)) h) dep n
      (arc-arcs_of g.nodes n dep g.edges (known g n dep wf m).0 (known g n dep wf m).1 m)
  where
    sorted-of :
        (cycles : Bool) (o : Option (List TaskNamespace))
        → (if cycles then err (cyclic g) else of_toposort petgraph g o) ≡ ok sorted
        → o ≡ some sorted
    sorted-of true o e = absurd (err-ok e)
    sorted-of false none e = absurd (err-ok e)
    sorted-of false (some s) e = ap some (ok-injective e)
