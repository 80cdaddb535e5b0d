-- ===== src/Router.antt =====
-- crates/cloacina/src/dispatcher/router.rs and the routing types of types.rs: which executor a task
-- goes to. Texts are byte lists, and a byte position stands for an index into the text.
use cloacina.Common.{
  ℕ, zero, suc, ◌+◌, ◌≡◌, Bool, true, false, ◌&&◌, ◌||◌, List, [], ◌∷◌, ◌++◌, Option, none, some,
  Text, codes, ◌==◌, text_eq, nat_eq, if◌then◌else◌, is_empty, length,
}
use cloacina.Namespace.{split_colons, cons_head}
use cloacina.Store.Queries.{starts_with}
pub mod Segments
pub mod Globs
pub mod Rules

pub record RoutingRule : Type 0 where
  pub task_pattern : Text
  pub executor : Text

pub record RoutingConfig : Type 0 where
  pub default_executor : Text
  pub rules : List RoutingRule

-- `str::split('*')`
unfoldable pub split_stars : Text → List Text
split_stars [] = [] ∷ []
split_stars (c ∷ s) = if c == b'*' then [] ∷ split_stars s else cons_head c (split_stars s)

unfoldable pub has_star : Text → Bool
has_star [] = false
has_star (c ∷ s) = c == b'*' || has_star s

-- The slice from a position on.
abbrev drop : ℕ → Text → Text
drop zero s = s
drop (suc n) [] = []
drop (suc n) (c ∷ s) = drop n s

abbrev next : Option ℕ → Option ℕ
next none = none
next (some pos) = some (suc pos)

-- `windows(needle.len()).position(…)`: the first place at which the needle stands.
unfoldable pub find_substring : Text → Text → Option ℕ
find_substring [] needle = none
find_substring (c ∷ haystack) needle =
    if starts_with needle (c ∷ haystack) then some 0 else next (find_substring haystack needle)

unfoldable pub ends_with : Text → Text → Bool
ends_with part [] = part == []
ends_with part (c ∷ s) = part == (c ∷ s) || ends_with part s

abbrev from_found : (ℕ → Bool) → Option ℕ → Bool
from_found k none = false
from_found k (some pos) = k pos

-- The loop over the parts between the stars. `first` holds at the part with index 0.
unfoldable pub match_parts : Bool → List Text → Text → ℕ → Bool
match_parts first [] text text_pos = true
match_parts true ([] ∷ parts) text text_pos = match_parts false parts text text_pos
match_parts true ((c ∷ part) ∷ parts) text text_pos =
    starts_with (c ∷ part) text && match_parts false parts text (length (c ∷ part))
match_parts false ([] ∷ parts) text text_pos = match_parts false parts text text_pos
match_parts false ((c ∷ part) ∷ []) text text_pos = ends_with (c ∷ part) text
match_parts false ((c ∷ part) ∷ q ∷ parts) text text_pos =
    from_found (λ pos. match_parts false (q ∷ parts) text (text_pos + (pos + length (c ∷ part))))
      (find_substring (drop text_pos text) (c ∷ part))

abbrev of_parts : Text → Text → List Text → Bool
of_parts pattern text (p ∷ []) = pattern == text
of_parts pattern text parts = match_parts true parts text 0

unfoldable pub match_wildcard : Text → Text → Bool
match_wildcard pattern text = of_parts pattern text (split_stars pattern)

unfoldable pub match_glob : Text → Text → Bool
match_glob pattern text =
    pattern == text
    || pattern == codes "*"
    || (if has_star pattern then match_wildcard pattern text else false)

abbrev pub double_star : Text
double_star = codes "**"

unfoldable pub match_segments : List Text → List Text → Bool
match_segments [] [] = true
match_segments [] (n ∷ names) = false
match_segments (p ∷ patterns) [] = p == double_star && is_empty patterns
match_segments (p ∷ patterns) (n ∷ names) =
    if p == double_star
    then match_segments patterns (n ∷ names) || match_segments (p ∷ patterns) names
    else match_glob p n && match_segments patterns names

unfoldable pub matches_pattern : Text → Text → Bool
matches_pattern pattern task_name =
    pattern == task_name
    || pattern == double_star
    || match_segments (split_colons pattern) (split_colons task_name)

unfoldable pub resolve_in : List RoutingRule → Text → Text → Text
resolve_in [] default_executor task_name = default_executor
resolve_in (rule ∷ rules) default_executor task_name =
    if matches_pattern rule.task_pattern task_name
    then rule.executor
    else resolve_in rules default_executor task_name

unfoldable pub resolve : RoutingConfig → Text → Text
resolve config task_name = resolve_in config.rules config.default_executor task_name

unfoldable pub add_rule : RoutingRule → RoutingConfig → RoutingConfig
add_rule rule config = record config { rules = config.rules ++ rule ∷ [] }
