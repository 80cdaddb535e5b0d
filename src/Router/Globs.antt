-- ===== src/Router/Globs.antt =====
-- What the pattern of one segment matches.
use cloacina.Common.{
  ◌≡◌, refl, ap, ◌∙◌, sym, Bool, true, false, ◌||◌, ◌&&◌, [], ◌∷◌, ◌++◌, Text, codes, ◌==◌, text_eq,
  text_beq, nat_eq, arith, Bool-cases, inl, inr, ==_refl, ==→eq,
}
use cloacina.Namespace.{cons_head}
use cloacina.Store.Queries.{starts_with}
use cloacina.Router.{split_stars, has_star, match_parts, of_parts, match_wildcard, match_glob}

starts_with-append : (p s : Text) → starts_with p (p ++ s) ≡ true
unfolding starts_with
starts_with-append [] s = refl
starts_with-append (c ∷ p) s = rw (==_refl c) (starts_with-append p s)

has_star-append : (p : Text) → has_star (p ++ codes "*") ≡ true
unfolding has_star
has_star-append [] = refl
has_star-append (c ∷ p) = ground (arith, has_star-append p)

split_stars-append : (p : Text) → has_star p ≡ false → split_stars (p ++ codes "*") ≡ p ∷ [] ∷ []
unfolding has_star split_stars
split_stars-append [] h = refl
split_stars-append (c ∷ p) h = elim (Bool-cases (c == b'*')) [
  | inl star ↦ absurd (ground arith)
  | inr other ↦ rw other (ap (cons_head c) (split_stars-append p (ground arith)))
]

match_parts-prefix : (p text : Text) → match_parts true (p ∷ [] ∷ []) text 0 ≡ starts_with p text
unfolding match_parts starts_with
match_parts-prefix [] text = refl
match_parts-prefix (c ∷ p) text = and_true (starts_with (c ∷ p) text)
  where
    and_true : (b : Bool) → (b && true) ≡ b
    and_true true = refl
    and_true false = refl

match_wildcard-prefix :
    (p text : Text) → has_star p ≡ false → match_wildcard (p ++ codes "*") text ≡ starts_with p text
unfolding match_wildcard
match_wildcard-prefix p text h =
    ap (of_parts (p ++ codes "*") text) (split_stars-append p h) ∙ match_parts-prefix p text

star_has : has_star (codes "*") ≡ true
unfolding has_star
star_has = refl

only_star : (q text : Text) → ((q ++ codes "*") == codes "*") ≡ true → starts_with q text ≡ true
unfolding text_beq starts_with
only_star [] text e = refl
only_star (c ∷ []) text e = absurd (ground arith)
only_star (c ∷ d ∷ q) text e = absurd (ground arith)

literal_star : (p : Text) → has_star p ≡ false → (p == codes "*") ≡ false
literal_star p h = elim (Bool-cases (p == codes "*")) [
  | inl same ↦ absurd (star (sym star_has ∙ (sym (ap has_star (==→eq p (codes "*") same)) ∙ h)))
  | inr other ↦ other
]
  where
    star : ¬ (true ≡ false)
    star e = cc

-- A segment pattern without a star matches its own text and no other.
match_glob-literal : (p text : Text) → has_star p ≡ false → match_glob p text ≡ (p == text)
unfolding match_glob
match_glob-literal p text h = rw (literal_star p h, h) (or_false (p == text))
  where
    or_false : (b : Bool) → ((b || false) || false) ≡ b
    or_false true = refl
    or_false false = refl

-- A segment pattern that ends in its only star matches exactly the texts that start with what
-- stands before the star.
pub match_glob-prefix :
    (p text : Text) → has_star p ≡ false → match_glob (p ++ codes "*") text ≡ starts_with p text
unfolding match_glob
match_glob-prefix p text h = elim (Bool-cases ((p ++ codes "*") == text)) [
  | inl same ↦
      rw same
        (sym (ap (starts_with p) (sym (==→eq _ text same)) ∙ starts_with-append p (codes "*")))
  | inr other ↦ elim (Bool-cases ((p ++ codes "*") == codes "*")) [
    | inl bare ↦ rw (other, bare) (sym (only_star p text bare))
    | inr longer ↦ rw (other, longer, has_star-append p) (match_wildcard-prefix p text h)
  ]
]
