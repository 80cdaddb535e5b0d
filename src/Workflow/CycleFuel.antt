-- ===== src/Workflow/CycleFuel.antt =====
-- `DependencyGraph::find_cycle` ends: each nested call marks one node more as visited.
use cloacina.Common.{
  ℕ, zero, suc, ◌<◌, ◌≤◌, ◌≡◌, refl, ap, ◌∙◌, sym, subst, Bool, true, false, ◌&&◌, not, List, [],
  ◌∷◌, ◌++◌, Option, none, some, mem, mem-append, ◌==◌, arith, Bool-cases, inl, inr, ==→eq, ==_refl,
  All, filter, length, length-append, length-filter-le,
}
use cloacina.Common.Dict
use cloacina.Common.Dict.{HashMap, set_insert, mem-set_insert, contains}
use cloacina.Namespace.{TaskNamespace, namespace_eq}
use cloacina.Workflow.Graph.{
  DependencyGraph, deps_of, Dfs, Search, found, exhausted, diverged, scan_deps, dfs_cycle,
  find_from, fuel_of, start, enter, leave, all_deps, or_default,
}
use cloacina.Workflow.Cycles.{continue}

length-filter-lt :
    (p q : TaskNamespace → Bool) (n : TaskNamespace)
    → ((u : TaskNamespace) → q u ≡ (not (n == u) && p u))
    → p n ≡ true
    → (us : List TaskNamespace)
    → (length (filter q us) ≤ length (filter p us))
      × (mem n us ≡ true → length (filter q us) < length (filter p us))
length-filter-lt p q n h e [] = (omega arith, λ m. absurd (cc))
length-filter-lt p q n h e (u ∷ us) = elim (Bool-cases (u == n)) [
  | inl here ↦
      let same = ==→eq u n here in
      let kept = subst (λ v. p v ≡ true) (sym same) e in
      let gone = h u ∙ ap (λ b. not b && p u) ((namespace_eq.decides n u).1 (sym same)) in
      rw (kept, gone)
        (
          omega (arith, (length-filter-lt p q n h e us).0),
          λ _. omega (arith, (length-filter-lt p q n h e us).0),
        )
  | inr there ↦ ground (
    arith,
    h u,
    length-filter-lt p q n h e us,
    namespace_eq.decides u n,
    namespace_eq.decides n u,
  )
]

-- The nodes that the search has still to visit, in a list that has them all.
unfoldable unvisited : List TaskNamespace → Dfs → ℕ
unvisited us s = length (filter (λ u. not (mem u s.visited)) us)

unvisited-enter :
    (us : List TaskNamespace) (node : TaskNamespace) (s : Dfs)
    → contains node s.visited ≡ false
    → mem node us ≡ true
    → unvisited us (enter node s) < unvisited us s
unfolding unvisited
unvisited-enter us node s new m =
    (length-filter-lt (λ u. not (mem u s.visited)) (λ u. not (mem u (set_insert node s.visited)))
        node (λ u. ground (arith, mem-set_insert node u s.visited)) (ground arith) us).1
      m

-- A search ends, and visits no node less than before.
abbrev Ends : List TaskNamespace → Dfs → Search → Type 0
Ends us s (found cycle) = Unit
Ends us s (exhausted s') = unvisited us s' ≤ unvisited us s
Ends us s diverged = ⊥

continue-Ends :
    (us : List TaskNamespace) (s : Dfs) (r : Search) (next : Dfs → Search)
    → Ends us s r
    → ((s' : Dfs) → unvisited us s' ≤ unvisited us s → Ends us s' (next s'))
    → Ends us s (continue r next)
continue-Ends us s (found cycle) next e h = tt
continue-Ends us s diverged next e h = e
continue-Ends us s (exhausted s') next e h = later (next s') (h s' e)
  where
    later : (r : Search) → Ends us s' r → Ends us s r
    later (found c) d = tt
    later (exhausted t) d = omega (arith, d, e)
    later diverged d = d

scan_deps-Ends :
    (fuel : ℕ) (us : List TaskNamespace) (visit : TaskNamespace → Dfs → Search)
    → ((d : TaskNamespace) (s : Dfs)
        → unvisited us s < fuel
        → mem d us ≡ true
        → contains d s.visited ≡ false
        → Ends us s (visit d s))
    → (deps : List TaskNamespace) (s : Dfs) → All (λ d. mem d us ≡ true) deps
    → unvisited us s < fuel
    → Ends us s (scan_deps visit deps s)
unfolding scan_deps
scan_deps-Ends fuel us visit v [] s m b = omega arith
scan_deps-Ends fuel us visit v (dep ∷ deps) s m b = elim (Bool-cases (contains dep s.visited)) [
  | inl old ↦ elim (Bool-cases (contains dep s.rec_stack)) [
    | inl again ↦ rw (old, again, scan_deps) tt
    | inr done ↦ rw (old, done, scan_deps) (scan_deps-Ends fuel us visit v deps s m.1 b)
  ]
  | inr new ↦
      rw (new, scan_deps)
        (continue-Ends us s (visit dep s) (scan_deps visit deps) (v dep s b m.0 new)
          (λ s' le. scan_deps-Ends fuel us visit v deps s' m.1 (omega (arith, le, b))))
]

leave-Ends :
    (us : List TaskNamespace) (node : TaskNamespace) (s inside : Dfs) (r : Search)
    → unvisited us inside ≤ unvisited us s
    → Ends us inside r
    → Ends us s (leave node r)
unfolding unvisited
leave-Ends us node s inside (found c) le e = tt
leave-Ends us node s inside diverged le e = e
leave-Ends us node s inside (exhausted t) le e = omega (arith, le, e)

dfs_cycle-Ends :
    (fuel : ℕ) (us : List TaskNamespace) (g : DependencyGraph)
    → ((n : TaskNamespace) → All (λ d. mem d us ≡ true) (deps_of g n))
    → (node : TaskNamespace) (s : Dfs) → unvisited us s < fuel
    → mem node us ≡ true
    → contains node s.visited ≡ false
    → Ends us s (dfs_cycle fuel g node s)
unfolding dfs_cycle
dfs_cycle-Ends zero us g c node s b m new = omega (arith, b)
dfs_cycle-Ends (suc fuel) us g c node s b m new =
    let less = unvisited-enter us node s new m in
    leave-Ends us node s (enter node s) _ (omega (arith, less)) (
      scan_deps-Ends fuel us (dfs_cycle fuel g) (dfs_cycle-Ends fuel us g c) (deps_of g node)
        (enter node s) (c node) (omega (arith, less, b)))

find_from-Ends :
    (fuel : ℕ) (us : List TaskNamespace) (g : DependencyGraph)
    → ((n : TaskNamespace) → All (λ d. mem d us ≡ true) (deps_of g n))
    → (nodes : List TaskNamespace) (s : Dfs) → All (λ d. mem d us ≡ true) nodes
    → unvisited us s < fuel
    → Ends us s (find_from fuel g nodes s)
unfolding find_from
find_from-Ends fuel us g c [] s m b = omega arith
find_from-Ends fuel us g c (node ∷ nodes) s m b = elim (Bool-cases (contains node s.visited)) [
  | inl old ↦ rw (old, find_from) (find_from-Ends fuel us g c nodes s m.1 b)
  | inr new ↦
      rw (new, find_from)
        (continue-Ends us s (dfs_cycle fuel g node s) (find_from fuel g nodes)
          (dfs_cycle-Ends fuel us g c node s b m.0 new)
          (λ s' le. find_from-Ends fuel us g c nodes s' m.1 (omega (arith, le, b))))
]

deps-All :
    (us : List TaskNamespace) (edges : HashMap TaskNamespace (List TaskNamespace))
    (n : TaskNamespace)
    → All (λ d. mem d us ≡ true) (all_deps edges)
    → All (λ d. mem d us ≡ true) (or_default (Dict.get n edges))
unfolding all_deps
deps-All us edges n h = go (Dict.get n edges) refl
  where
    split :
        (xs ys : List TaskNamespace)
        → All (λ d. mem d us ≡ true) (xs ++ ys)
        → All (λ d. mem d us ≡ true) xs × All (λ d. mem d us ≡ true) ys
    split [] ys a = (tt, a)
    split (x ∷ xs) ys a = ((a.0, (split xs ys a.1).0), (split xs ys a.1).1)

    values :
        (m : HashMap TaskNamespace (List TaskNamespace))
        → All (λ d. mem d us ≡ true) (all_deps m)
        → All (λ e. All (λ d. mem d us ≡ true) e.1) m
    values [] a = tt
    values ((k, deps) ∷ m) a =
        ((split deps (all_deps m) a).0, values m (split deps (all_deps m) a).1)

    go :
        (o : Option (List TaskNamespace))
        → Dict.get n edges ≡ o
        → All (λ d. mem d us ≡ true) (or_default o)
    go none e = tt
    go (some deps) e = Dict.get-All (λ v. All (λ d. mem d us ≡ true) v.1) n edges (values edges h) e

All-mem :
    (us xs : List TaskNamespace)
    → ((d : TaskNamespace) → mem d xs ≡ true → mem d us ≡ true)
    → All (λ d. mem d us ≡ true) xs
All-mem us [] h = tt
All-mem us (x ∷ xs) h = (h x (ground (arith, ==_refl x)), All-mem us xs (λ d m. h d (ground arith)))

-- The search for a cycle ends on every graph: the depth of its recursion stays below the number of
-- nodes and of listed dependencies, whether or not the lists name nodes of the graph.
pub find_from-ends : (g : DependencyGraph) → ¬ (find_from (fuel_of g) g g.nodes start ≡ diverged)
unfolding unvisited
find_from-ends g h =
    let us = g.nodes ++ all_deps g.edges in
    subst (Ends us start) h (
      find_from-Ends (fuel_of g) us g
        (λ n. deps-All us g.edges n (
          All-mem us (all_deps g.edges)
            (λ d m. ground (arith, mem-append d g.nodes (all_deps g.edges)))))
        g.nodes start
        (All-mem us g.nodes (λ d m. ground (arith, mem-append d g.nodes (all_deps g.edges))))
        (omega (
          arith,
          length-filter-le (λ u. not (mem u start.visited)) us,
          length-append g.nodes (all_deps g.edges),
        )))
