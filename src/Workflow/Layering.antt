-- ===== src/Workflow/Layering.antt =====
-- `Workflow::get_execution_levels` ends and puts each task after its dependencies.
use cloacina.Common.{
  All-map, ==→eq, any, ℕ, zero, suc, ◌≤◌, ◌≡◌, refl, ap, ◌∙◌, subst, Bool, true, false, not, List,
  [], ◌∷◌, ◌++◌, Option, none, some, filter, all, mem, mem-append, length, length-filter-le, All,
  ok, arith, Bool-cases, inl, inr, ◌==◌, ==_refl,
}
use cloacina.Common.Dict
use cloacina.Common.Dict.{HashMap, contains, mem-filter}
use cloacina.Namespace.{TaskNamespace, namespace_eq}
use cloacina.Workflow.Graph.{Petgraph}
use cloacina.Workflow.Tasks
use cloacina.Workflow.Tasks.{Task, Workflow}
use cloacina.Workflow.Levels.{
  all_deps_done, current_level, levels_from, levels_of, as_ok, get_execution_levels, done_in,
}

module _ (tasks : HashMap TaskNamespace Task) where
  -- Each task of the list comes after its dependencies: those of `completed` and those before it.
  unfoldable pub DependenciesFirst : List TaskNamespace → List TaskNamespace → Type 0
  DependenciesFirst completed [] = Unit
  DependenciesFirst completed (n ∷ ns) =
      (all_deps_done tasks completed n ≡ true) × DependenciesFirst (n ∷ completed) ns

  -- The dependencies of the tasks of a level are in earlier levels.
  unfoldable pub Layered : List TaskNamespace → List (List TaskNamespace) → Type 0
  Layered completed [] = Unit
  Layered completed (level ∷ levels) =
      All (λ n. all_deps_done tasks completed n ≡ true) level × Layered (level ++ completed) levels

  abbrev Among : List TaskNamespace → List TaskNamespace → Type 0
  Among c c' = (d : TaskNamespace) → mem d c ≡ true → mem d c' ≡ true

  all-Among :
      (c c' deps : List TaskNamespace)
      → Among c c'
      → all (λ dep. contains dep c) deps ≡ true
      → all (λ dep. contains dep c') deps ≡ true
  all-Among c c' [] sub h = refl
  all-Among c c' (d ∷ deps) sub h = ground (arith, sub d, all-Among c c' deps sub)

  all_deps_done-Among :
      (c c' : List TaskNamespace) (n : TaskNamespace)
      → Among c c'
      → all_deps_done tasks c n ≡ true
      → all_deps_done tasks c' n ≡ true
  unfolding all_deps_done
  all_deps_done-Among c c' n sub h = go (Dict.get n tasks) h
    where
      go : (o : Option Task) → done_in c o ≡ true → done_in c' o ≡ true
      go none e = e
      go (some task) e = all-Among c c' task.dependencies sub e

  cons-Among : (n : TaskNamespace) (c c' : List TaskNamespace) → Among c c' → Among (n ∷ c) (n ∷ c')
  cons-Among n c c' sub d m = ground (arith, sub d)

  with_head :
      (n : TaskNamespace) (c c' : List TaskNamespace)
      → Among c c'
      → mem n c' ≡ true
      → Among (n ∷ c) c'
  with_head n c c' sub here d m = elim (Bool-cases (n == d)) [
    | inl same ↦ subst (λ e. mem e c' ≡ true) (==→eq n d same) here
    | inr other ↦ sub d (ground arith)
  ]

  -- What remains after a level is still in order.
  filter-DependenciesFirst :
      (p : TaskNamespace → Bool) (c c' ns : List TaskNamespace)
      → Among c c'
      → All (λ n. p n ≡ false → mem n c' ≡ true) ns
      → DependenciesFirst c ns
      → DependenciesFirst c' (filter p ns)
  unfolding DependenciesFirst
  filter-DependenciesFirst p c c' [] sub gone h = tt
  filter-DependenciesFirst p c c' (n ∷ ns) sub gone h = elim (Bool-cases (p n)) [
    | inl kept ↦ rw kept (
      all_deps_done-Among c c' n sub h.0,
      filter-DependenciesFirst p (n ∷ c) (n ∷ c') ns (cons-Among n c c' sub)
          (All-map ns (λ m g k. ground (arith, g k)) gone.1) h.1,
    )
    | inr left ↦
        rw left
          (filter-DependenciesFirst p (n ∷ c) c' ns (with_head n c c' sub (gone.0 left)) gone.1 h.1)
  ]

  All-filter :
      (p : TaskNamespace → Bool) (ns : List TaskNamespace) → All (λ n. p n ≡ true) (filter p ns)
  All-filter p [] = tt
  All-filter p (n ∷ ns) = elim (Bool-cases (p n)) [
    | inl holds ↦ rw holds (holds, All-filter p ns)
    | inr fails ↦ rw fails (All-filter p ns)
  ]

  -- The loop ends, its levels are in order, and each task is in one.
  Ends : List TaskNamespace → List TaskNamespace → Option (List (List TaskNamespace)) → Type 0
  Ends c ns r =
      (levels : List (List TaskNamespace)) × (r ≡ some levels)
      × Layered c levels
      × ((m : TaskNamespace) → mem m ns ≡ true → any (λ l. mem m l) levels ≡ true)

  gone-All :
      (level c ns : List TaskNamespace)
      → All (λ m. not (mem m level) ≡ false → mem m (level ++ c) ≡ true) ns
  gone-All level c [] = tt
  gone-All level c (n ∷ ns) = (λ e. ground (arith, mem-append n level c), gone-All level c ns)

  levels_from-Ends :
      (fuel : ℕ) (c ns : List TaskNamespace)
      → length ns ≤ fuel
      → DependenciesFirst c ns
      → Ends c ns (levels_from fuel tasks c ns)
  unfolding levels_from Ends Layered DependenciesFirst
  levels_from-Ends fuel c [] enough h = ([], refl, tt, λ m e. absurd (cc))
  levels_from-Ends zero c (n ∷ ns) enough h = absurd (omega arith)
  levels_from-Ends (suc fuel) c (n ∷ ns) enough h =
      let level = current_level tasks c (n ∷ ns) in
      let q = λ (m : TaskNamespace). not (mem m level) in
      let inside = mem-filter (all_deps_done tasks c) n (n ∷ ns) in
      let here : mem n level ≡ true = ground (arith, inside, h.0, ==_refl n) in
      let short : length (filter q (n ∷ ns)) ≤ length ns = rw here (length-filter-le q ns) in
      let rest = levels_from-Ends fuel (level ++ c) (filter q (n ∷ ns)) (omega arith) (
        filter-DependenciesFirst q c (level ++ c) (n ∷ ns)
          (λ d m. ground (arith, mem-append d level c)) (gone-All level c (n ∷ ns)) h) in
      (
        level ∷ rest.0,
        rw rest.1 refl,
        (All-filter (all_deps_done tasks c) (n ∷ ns), rest.2),
        λ m e. ground (arith, rest.3 m, mem-filter q m (n ∷ ns)),
      )

-- If the order that the tasks are sorted in puts each after its dependencies, the loop over the
-- levels ends, within as many rounds as there are tasks: the dependencies of each task of a level
-- are in earlier levels, and each task is in some level.
pub get_execution_levels-Layered :
    (petgraph : Petgraph) (w : Workflow) (sorted : List TaskNamespace)
    → Tasks.topological_sort petgraph w ≡ ok sorted
    → DependenciesFirst w.tasks [] sorted
    → (levels : List (List TaskNamespace)) × (get_execution_levels petgraph w ≡ some (ok levels))
      × Layered w.tasks [] levels
      × ((m : TaskNamespace) → mem m sorted ≡ true → any (λ l. mem m l) levels ≡ true)
unfolding get_execution_levels Ends
get_execution_levels-Layered petgraph w sorted e h =
    let r = levels_from-Ends w.tasks (length sorted) [] sorted (omega arith) h in
    (r.0, ap (levels_of w) e ∙ ap as_ok r.1, r.2, r.3)
