-- ===== src/Common/Dict.antt =====
-- `HashMap` as an association list and `HashSet` as a list, in some order of iteration. A key is
-- written once, so the order of iteration is the only freedom that the real tables have.
use mathlib.Core.Path.{◌≡◌, refl, subst, sym, ◌∙◌}
use mathlib.Core.Logic.{◌⊎◌, inl, inr}
use mathlib.Core.Bool.{Bool, true, false, ◌&&◌, ◌||◌, not}
use mathlib.Core.Option.{Option, none, some}
use mathlib.Core.List.{List, [], ◌∷◌, map}
use native.Mathlib.Omega.{arith}
use cloacina.Common.Tests.{if◌then◌else◌, Eq, ◌==◌, Bool-cases, ==→eq}
use cloacina.Common.Results.{some-injective}
use cloacina.Common.Lists.{mem, filter, All}

abbrev pub HashMap : Type 0 → Type 0 → Type 0
HashMap K V = List (K × V)

abbrev pub is_some {ℓ} : {A : Type ℓ} → Option A → Bool
is_some none = false
is_some (some a) = true

module _ {K V : Type 0} where
  abbrev pub keys : HashMap K V → List K
  keys m = map (λ p. p.0) m

  abbrev pub values : HashMap K V → List V
  values m = map (λ p. p.1) m

module _ {K V : Type 0} ⦃e : Eq K⦄ where
  unfoldable pub get : K → HashMap K V → Option V
  get k [] = none
  get k ((j, v) ∷ m) = if j == k then some v else get k m

  unfoldable pub insert : K → V → HashMap K V → HashMap K V
  insert k v [] = (k, v) ∷ []
  insert k v ((j, w) ∷ m) = if j == k then (k, v) ∷ m else (j, w) ∷ insert k v m

  unfoldable pub remove : K → HashMap K V → HashMap K V
  remove k [] = []
  remove k ((j, w) ∷ m) = if j == k then remove k m else (j, w) ∷ remove k m

  abbrev pub contains_key : K → HashMap K V → Bool
  contains_key k m = is_some (get k m)

  pub get-nil : (k : K) → get k [] ≡ none
  unfolding get
  get-nil k = refl

  pub get-insert :
      (k j : K) (v : V) (m : HashMap K V)
      → get j (insert k v m) ≡ (if k == j then some v else get j m)
  unfolding get insert
  get-insert k j v [] = refl
  get-insert k j v ((i, w) ∷ m) =
      ground (arith, e.decides i k, e.decides k j, e.decides i j, get-insert k j v m)

  pub get-insert_cases :
      (k j : K) (v w : V) (m : HashMap K V)
      → get j (insert k v m) ≡ some w
      → (v ≡ w) ⊎ (get j m ≡ some w)
  get-insert_cases k j v w m h = ground (arith, get-insert k j v m)

  -- What holds of each entry.
  pub All-insert :
      (P : K × V → Type 0) (k : K) (v : V) (m : HashMap K V)
      → P (k, v)
      → All P m
      → All P (insert k v m)
  unfolding insert
  All-insert P k v [] p h = (p, tt)
  All-insert P k v ((j, w) ∷ m) p h = elim (Bool-cases (j == k)) [
    | inl same ↦ rw same (p, h.1)
    | inr other ↦ rw other (h.0, All-insert P k v m p h.1)
  ]

  pub get-All :
      (P : K × V → Type 0) (k : K) (m : HashMap K V) {v : V} → All P m → get k m ≡ some v → P (k, v)
  unfolding get
  get-All P k [] h e = absurd (cc)
  get-All P k ((j, w) ∷ m) {v} h e = elim (Bool-cases (j == k)) [
    | inl same ↦
        subst (λ i. P (i, v)) (==→eq j k same)
          (subst (λ u. P (j, u)) (some-injective (sym (rw same refl) ∙ e)) h.0)
    | inr other ↦ get-All P k m h.1 (ground arith)
  ]

  pub All-remove :
      (P : K × V → Type 0) (k : K) (m : HashMap K V)
      → All P m
      → All (λ g. P g × ((g.0 == k) ≡ false)) (remove k m)
  unfolding remove
  All-remove P k [] h = tt
  All-remove P k ((j, w) ∷ m) h = elim (Bool-cases (j == k)) [
    | inl same ↦ rw same (All-remove P k m h.1)
    | inr other ↦ rw other ((h.0, other), All-remove P k m h.1)
  ]

  pub get-remove :
      (k j : K) (m : HashMap K V) → get j (remove k m) ≡ (if k == j then none else get j m)
  unfolding get remove
  get-remove k j [] = ground arith
  get-remove k j ((i, w) ∷ m) =
      ground (arith, e.decides i k, e.decides k j, e.decides i j, get-remove k j m)

module _ {K : Type 0} ⦃e : Eq K⦄ where
  abbrev pub contains : K → List K → Bool
  contains k s = mem k s

  -- A new member is put at one end: the order of iteration is not specified.
  unfoldable pub set_insert : K → List K → List K
  set_insert k s = if mem k s then s else k ∷ s

  unfoldable pub set_remove : K → List K → List K
  set_remove k s = filter (λ j. not (j == k)) s

  pub mem-set_insert : (k j : K) (s : List K) → mem j (set_insert k s) ≡ (k == j || mem j s)
  unfolding set_insert
  mem-set_insert k j s = elim (Bool-cases (mem k s)) [
    | inl old ↦ elim (Bool-cases (k == j)) [
      | inl same ↦ let eq : k ≡ j = ==→eq k j same in cc
      | inr other ↦ ground arith
    ]
    | inr new ↦ ground arith
  ]

  pub mem-filter : (p : K → Bool) (j : K) (s : List K) → mem j (filter p s) ≡ (p j && mem j s)
  mem-filter p j [] = ground arith
  mem-filter p j (x ∷ s) = ground (arith, e.decides x j, mem-filter p j s)

  pub mem-set_remove : (k j : K) (s : List K) → mem j (set_remove k s) ≡ (not (j == k) && mem j s)
  unfolding set_remove
  mem-set_remove k j s = mem-filter (λ i. not (i == k)) j s
