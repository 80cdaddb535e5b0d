-- ===== src/Namespace/RoundTrip.antt =====
-- Printing and parsing a namespace are inverse to each other.
use cloacina.Common.{
  ℕ, ◌≡◌, ◌≢◌, refl, sym, ◌∙◌, Bool, true, ◌&&◌, not, List, [], ◌∷◌, ◌++◌, Text, ok, arith,
}
use cloacina.Namespace.{
  TaskNamespace, is_colon, cons_head, split_colons, to_string, from_string, of_parts,
}

-- A component that keeps its extent before a separator: it holds no "::" and ends in no ":".
unfoldable pub separable : Text → Bool
separable [] = true
separable (c ∷ []) = not (is_colon c)
separable (c ∷ d ∷ s) = not (is_colon c && is_colon d) && separable (d ∷ s)

-- A component that holds no "::".
unfoldable pub unbroken : Text → Bool
unbroken [] = true
unbroken (c ∷ []) = true
unbroken (c ∷ d ∷ s) = not (is_colon c && is_colon d) && unbroken (d ∷ s)

split-separable :
    (t rest : Text)
    → separable t ≡ true
    → split_colons (t ++ b':' ∷ b':' ∷ rest) ≡ t ∷ split_colons rest
unfolding split_colons separable
split-separable [] rest h = refl
split-separable (c ∷ []) rest h = ground arith
split-separable (c ∷ d ∷ s) rest h = ground (arith, split-separable (d ∷ s) rest)

split-unbroken : (t : Text) → unbroken t ≡ true → split_colons t ≡ t ∷ []
unfolding split_colons unbroken
split-unbroken [] h = refl
split-unbroken (c ∷ []) h = refl
split-unbroken (c ∷ d ∷ s) h = ground (arith, split-unbroken (d ∷ s))

-- Joining what `split_colons` returned gives the text back.
join_colons : List Text → Text
join_colons [] = []
join_colons (p ∷ []) = p
join_colons (p ∷ q ∷ ps) = p ++ b':' ∷ b':' ∷ join_colons (q ∷ ps)

join-cons_head : (c : ℕ) (ps : List Text) → join_colons (cons_head c ps) ≡ c ∷ join_colons ps
unfolding join_colons
join-cons_head c [] = refl
join-cons_head c (p ∷ []) = refl
join-cons_head c (p ∷ q ∷ ps) = refl

cons_head-ne-nil : (c : ℕ) (ps : List Text) → cons_head c ps ≢ []
cons_head-ne-nil c [] h = cc
cons_head-ne-nil c (p ∷ ps) h = cc

split-ne-nil : (s : Text) → split_colons s ≢ []
unfolding split_colons
split-ne-nil [] h = cc
split-ne-nil (c ∷ []) h = cc
split-ne-nil (c ∷ d ∷ s) h = ground (arith, cons_head-ne-nil c (split_colons (d ∷ s)))

join-nil_cons : (ps : List Text) → ps ≢ [] → join_colons ([] ∷ ps) ≡ b':' ∷ b':' ∷ join_colons ps
unfolding join_colons
join-nil_cons [] h = absurd (h refl)
join-nil_cons (p ∷ ps) h = refl

join-split : (s : Text) → join_colons (split_colons s) ≡ s
unfolding split_colons join_colons
join-split [] = refl
join-split (c ∷ []) = refl
join-split (c ∷ d ∷ s) = ground (
  arith,
  join-cons_head c (split_colons (d ∷ s)),
  join-split (d ∷ s),
  join-split s,
  join-nil_cons (split_colons s) (split-ne-nil s),
)

-- A namespace whose first three components are separable and whose task holds no "::" is read back
-- from its printed form.
pub from_string-to_string :
    (ns : TaskNamespace)
    → separable ns.tenant_id ≡ true
    → separable ns.package_name ≡ true
    → separable ns.workflow_id ≡ true
    → unbroken ns.task_id ≡ true
    → from_string (to_string ns) ≡ ok ns
unfolding from_string to_string
from_string-to_string ns h1 h2 h3 h4 = rw (
  split-separable ns.tenant_id _ h1,
  split-separable ns.package_name _ h2,
  split-separable ns.workflow_id _ h3,
  split-unbroken ns.task_id h4,
)

of_parts_sound :
    (s : Text) (ps : List Text) {ns : TaskNamespace}
    → of_parts s ps ≡ ok ns
    → join_colons ps ≡ to_string ns
unfolding join_colons to_string
of_parts_sound s [] h = cc
of_parts_sound s (a ∷ []) h = cc
of_parts_sound s (a ∷ b ∷ []) h = cc
of_parts_sound s (a ∷ b ∷ c ∷ []) h = cc
of_parts_sound s (a ∷ b ∷ c ∷ d ∷ []) h = ground arith
of_parts_sound s (a ∷ b ∷ c ∷ d ∷ e ∷ f) h = cc

-- Whatever text is accepted, the namespace read from it prints as that very text.
pub to_string-from_string :
    (s : Text) {ns : TaskNamespace} → from_string s ≡ ok ns → to_string ns ≡ s
unfolding from_string
to_string-from_string s h = sym (of_parts_sound s (split_colons s) h) ∙ join-split s
