-- ===== src/Router/Segments.antt =====
-- What a double star in a pattern matches.
use cloacina.Common.{
  ◌≡◌, ◌≢◌, refl, ap, Bool, true, false, ◌||◌, List, [], ◌∷◌, Text, any, is_empty, ◌==◌, text_eq,
  arith, Bool-cases, inl, inr, ==_refl, ==→eq,
}
use cloacina.Router.{double_star, match_segments}

-- The ends of a list, the whole first and the empty one last.
abbrev pub suffixes : List Text → List (List Text)
suffixes [] = [] ∷ []
suffixes (n ∷ names) = (n ∷ names) ∷ suffixes names

match-nil :
    (patterns : List Text)
    → patterns ≢ double_star ∷ []
    → match_segments patterns [] ≡ is_empty patterns
unfolding match_segments
match-nil [] h = refl
match-nil (p ∷ []) h = elim (Bool-cases (p == double_star)) [
  | inl star ↦ absurd (h (ap (λ (q : Text). q ∷ []) (==→eq p double_star star)))
  | inr other ↦ rw other refl
]
match-nil (p ∷ q ∷ patterns) h = ground arith

-- A pattern that begins with a double star matches a name exactly if the rest of the pattern
-- matches what is left of the name after any number of its segments, none and all included. The
-- rest is not itself a lone double star.
pub match_segments-double_star :
    (patterns names : List Text)
    → patterns ≢ double_star ∷ []
    → match_segments (double_star ∷ patterns) names ≡ any (match_segments patterns) (suffixes names)
unfolding match_segments
match_segments-double_star patterns [] h =
    rw (==_refl double_star, match-nil patterns h) (or_false (is_empty patterns))
  where
    or_false : (b : Bool) → b ≡ (b || false)
    or_false true = refl
    or_false false = refl
match_segments-double_star patterns (n ∷ names) h = rw (==_refl double_star) (
    ap (λ b. match_segments patterns (n ∷ names) || b)
      (match_segments-double_star patterns names h))
