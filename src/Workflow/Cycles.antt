-- ===== src/Workflow/Cycles.antt =====
-- `DependencyGraph::find_cycle`: what it returns is a cycle.
use cloacina.Common.{
  ℕ, zero, suc, ◌≡◌, refl, ap, ◌∙◌, sym, subst, true, List, [], ◌∷◌, ◌++◌, some, mem, mem-append,
  ◌==◌, arith, Bool-cases, inl, inr, ==→eq, ==_refl, All, some-injective,
}
use cloacina.Common.Dict.{set_remove, mem-set_insert, mem-set_remove, contains}
use cloacina.Namespace.{TaskNamespace, namespace_eq}
use cloacina.Workflow.Graph.{
  DependencyGraph, deps_of, Dfs, Search, found, exhausted, diverged, suffix_from, cycle_at, pop,
  scan_deps, dfs_cycle, find_from, find_cycle, fuel_of, start, found?, enter, leave,
}

-- The nodes of the list and then the last node, each depending on the next.
unfoldable pub WalkTo : DependencyGraph → List TaskNamespace → TaskNamespace → Type 0
WalkTo g [] n = Unit
WalkTo g (x ∷ []) n = mem n (deps_of g x) ≡ true
WalkTo g (x ∷ y ∷ p) n = (mem y (deps_of g x) ≡ true) × WalkTo g (y ∷ p) n

-- A walk that ends in the node in which it starts.
abbrev pub Closed : DependencyGraph → List TaskNamespace → Type 0
Closed g cycle =
    (d : TaskNamespace) × (rest : List TaskNamespace) × (cycle ≡ d ∷ rest ++ d ∷ [])
    × WalkTo g (d ∷ rest) d

WalkTo-snoc :
    (g : DependencyGraph) (p : List TaskNamespace) (n m : TaskNamespace)
    → WalkTo g p n
    → mem m (deps_of g n) ≡ true
    → WalkTo g (p ++ n ∷ []) m
unfolding WalkTo
WalkTo-snoc g [] n m w e = e
WalkTo-snoc g (x ∷ []) n m w e = (w, e)
WalkTo-snoc g (x ∷ y ∷ p) n m w e = (w.0, WalkTo-snoc g (y ∷ p) n m w.1 e)

pop-snoc : (p : List TaskNamespace) (n : TaskNamespace) → pop (p ++ n ∷ []) ≡ p
unfolding pop
pop-snoc [] n = refl
pop-snoc (x ∷ []) n = refl
pop-snoc (x ∷ y ∷ p) n = ap (λ q. x ∷ q) (pop-snoc (y ∷ p) n)

-- The part of a walk from a node on.
suffix_from-WalkTo :
    (g : DependencyGraph) (d : TaskNamespace) (p : List TaskNamespace) (m : TaskNamespace)
    → mem d p ≡ true
    → WalkTo g p m
    → (rest : List TaskNamespace) × (suffix_from d p ≡ some (d ∷ rest)) × WalkTo g (d ∷ rest) m
unfolding suffix_from WalkTo
suffix_from-WalkTo g d [] m h w = absurd (cc)
suffix_from-WalkTo g d (x ∷ p) m h w = elim (Bool-cases (x == d)) [
  | inl here ↦
      let same = ==→eq x d here in
      (p, rw here (ap (λ y. some (y ∷ p)) same), subst (λ y. WalkTo g (y ∷ p) m) same w)
  | inr there ↦
      let (rest, e, v) = suffix_from-WalkTo g d p m (ground arith) (tail p w) in
      (rest, rw there e, v)
]
  where
    tail : (q : List TaskNamespace) → WalkTo g (x ∷ q) m → WalkTo g q m
    tail [] v = tt
    tail (y ∷ q) v = v.1

-- Each node of the recursion stack is on the path.
abbrev OnPath : Dfs → Type 0
OnPath s = (j : TaskNamespace) → mem j s.rec_stack ≡ true → mem j s.path ≡ true

-- A search finds a cycle, or it restores the path and leaves nothing on the recursion stack.
abbrev Outcome : DependencyGraph → Dfs → Search → Type 0
Outcome g s (found cycle) = Closed g cycle
Outcome g s (exhausted s') =
    (s'.path ≡ s.path)
    × ((j : TaskNamespace) → mem j s'.rec_stack ≡ true → mem j s.rec_stack ≡ true)
Outcome g s diverged = Unit

cycle_at-Closed :
    (g : DependencyGraph) (d : TaskNamespace) (path : List TaskNamespace)
    → mem d path ≡ true
    → WalkTo g path d
    → Closed g (cycle_at d path)
cycle_at-Closed g d path h w =
    let (rest, e, v) = suffix_from-WalkTo g d path d h w in (d, rest, rw e refl, v)

Outcome-trans :
    (g : DependencyGraph) (s s' : Dfs) (r : Search)
    → Outcome g s (exhausted s')
    → Outcome g s' r
    → Outcome g s r
Outcome-trans g s s' (found cycle) c d = d
Outcome-trans g s s' diverged c d = tt
Outcome-trans g s s' (exhausted t) c d = (d.0 ∙ c.0, λ j h. c.1 j (d.1 j h))

OnPath-exhausted :
    (g : DependencyGraph) (s s' : Dfs) → Outcome g s (exhausted s') → OnPath s → OnPath s'
OnPath-exhausted g s s' c o j h = subst (λ p. mem j p ≡ true) (sym c.0) (o j (c.1 j h))

-- What follows a search that is exhausted.
abbrev pub continue : Search → (Dfs → Search) → Search
continue r next = elim r [
  | found cycle ↦ found cycle
  | exhausted s' ↦ next s'
  | diverged ↦ diverged
]

continue-Outcome :
    (g : DependencyGraph) (s : Dfs) (r : Search) (next : Dfs → Search)
    → Outcome g s r
    → ((s' : Dfs) → Outcome g s (exhausted s') → Outcome g s' (next s'))
    → Outcome g s (continue r next)
continue-Outcome g s (found cycle) next c h = c
continue-Outcome g s diverged next c h = tt
continue-Outcome g s (exhausted s') next c h = Outcome-trans g s s' (next s') c (h s' c)

module _ (g : DependencyGraph) (visit : TaskNamespace → Dfs → Search)
    (visits : (dep : TaskNamespace) (s : Dfs)
      → WalkTo g s.path dep
      → OnPath s
      → Outcome g s (visit dep s)) where
  scan_deps-Outcome :
      (deps : List TaskNamespace) (s : Dfs)
      → All (λ d. WalkTo g s.path d) deps
      → OnPath s
      → Outcome g s (scan_deps visit deps s)
  unfolding scan_deps
  scan_deps-Outcome [] s w o = (refl, λ j h. h)
  scan_deps-Outcome (dep ∷ deps) s w o = elim (Bool-cases (contains dep s.visited)) [
    | inl old ↦ elim (Bool-cases (contains dep s.rec_stack)) [
      | inl again ↦ rw (old, again, scan_deps) (cycle_at-Closed g dep s.path (o dep again) w.0)
      | inr done ↦ rw (old, done, scan_deps) (scan_deps-Outcome deps s w.1 o)
    ]
    | inr new ↦
        rw (new, scan_deps)
          (continue-Outcome g s (visit dep s) (scan_deps visit deps) (visits dep s w.0 o) (λ s' c.
            scan_deps-Outcome deps s' (subst (λ p. All (λ d. WalkTo g p d) deps) (sym c.0) w.1)
              (OnPath-exhausted g s s' c o)))
  ]

deps-All :
    (g : DependencyGraph) (p : List TaskNamespace) (n : TaskNamespace) (deps : List TaskNamespace)
    → WalkTo g p n
    → ((d : TaskNamespace) → mem d deps ≡ true → mem d (deps_of g n) ≡ true)
    → All (λ d. WalkTo g (p ++ n ∷ []) d) deps
deps-All g p n [] w h = tt
deps-All g p n (d ∷ deps) w h = (
  WalkTo-snoc g p n d w (h d (ground (arith, ==_refl d))),
  deps-All g p n deps w (λ e m. h e (ground arith)),
)

dfs_cycle-Outcome :
    (fuel : ℕ) (g : DependencyGraph) (node : TaskNamespace) (s : Dfs)
    → WalkTo g s.path node
    → OnPath s
    → Outcome g s (dfs_cycle fuel g node s)
unfolding dfs_cycle
dfs_cycle-Outcome zero g node s w o = tt
dfs_cycle-Outcome (suc fuel) g node s w o =
    leaves (scan_deps (dfs_cycle fuel g) (deps_of g node) inside) (
      scan_deps-Outcome g (dfs_cycle fuel g) (dfs_cycle-Outcome fuel g) (deps_of g node) inside
        (deps-All g s.path node (deps_of g node) w (λ d h. h)) on_path)
  where
    inside : Dfs
    inside = enter node s

    on_path : OnPath inside
    on_path j h =
        ground (arith, o j, mem-set_insert node j s.rec_stack, mem-append j s.path (node ∷ []))

    left_on_stack :
        (stack : List TaskNamespace) (j : TaskNamespace)
        → (mem j stack ≡ true → mem j inside.rec_stack ≡ true)
        → mem j (set_remove node stack) ≡ true
        → mem j s.rec_stack ≡ true
    left_on_stack stack j f h = ground (
      arith,
      f,
      mem-set_insert node j s.rec_stack,
      mem-set_remove node j stack,
      namespace_eq.decides node j,
      namespace_eq.decides j node,
    )

    leaves : (r : Search) → Outcome g inside r → Outcome g s (leave node r)
    leaves (found cycle) c = c
    leaves diverged c = tt
    leaves (exhausted s') c =
        (ap pop c.0 ∙ pop-snoc s.path node, λ j h. left_on_stack s'.rec_stack j (c.1 j) h)

find_from-Outcome :
    (fuel : ℕ) (g : DependencyGraph) (nodes : List TaskNamespace) (s : Dfs)
    → s.path ≡ []
    → OnPath s
    → Outcome g s (find_from fuel g nodes s)
unfolding find_from WalkTo
find_from-Outcome fuel g [] s p o = (refl, λ j h. h)
find_from-Outcome fuel g (node ∷ nodes) s p o = elim (Bool-cases (contains node s.visited)) [
  | inl old ↦ rw (old, find_from) (find_from-Outcome fuel g nodes s p o)
  | inr new ↦
      rw (new, find_from)
        (continue-Outcome g s (dfs_cycle fuel g node s) (find_from fuel g nodes)
          (dfs_cycle-Outcome fuel g node s (subst (λ q. WalkTo g q node) (sym p) (root node)) o)
          (λ s' c. find_from-Outcome fuel g nodes s' (c.0 ∙ p) (OnPath-exhausted g s s' c o)))
]
  where
    root : (n : TaskNamespace) → WalkTo g [] n
    root n = tt

-- What `find_cycle` returns is a cycle of the graph: it ends in the node in which it starts, and
-- each node on it lists the next one among its dependencies.
pub find_cycle-Closed :
    (g : DependencyGraph) {cycle : List TaskNamespace} → find_cycle g ≡ some cycle → Closed g cycle
unfolding find_cycle
find_cycle-Closed g {cycle} h =
    go (find_from (fuel_of g) g g.nodes start)
      (find_from-Outcome (fuel_of g) g g.nodes start refl (λ j e. e)) h
  where
    go : (r : Search) → Outcome g start r → found? r ≡ some cycle → Closed g cycle
    go (found c) o e = subst (Closed g) (some-injective e) o
    go (exhausted s) o e = absurd (cc)
    go diverged o e = absurd (cc)
