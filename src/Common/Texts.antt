-- ===== src/Common/Texts.antt =====
-- `str::contains` on texts.
use mathlib.Core.Bool.{Bool, true, false, ◌&&◌, ◌||◌}
use mathlib.Core.List.{[], ◌∷◌}
use cloacina.Common.Tests.{Text, ◌==◌, nat_eq}

abbrev is_prefix : Text → Text → Bool
is_prefix [] s = true
is_prefix (c ∷ p) [] = false
is_prefix (c ∷ p) (d ∷ s) = c == d && is_prefix p s

-- Some suffix starts with the text.
unfoldable pub text_contains : Text → Text → Bool
text_contains [] p = is_prefix p []
text_contains (c ∷ s) p = is_prefix p (c ∷ s) || text_contains s p
