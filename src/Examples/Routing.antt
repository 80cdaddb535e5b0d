-- ===== src/Examples/Routing.antt =====
-- The router: crates/cloacina/src/dispatcher/router.rs.
use cloacina.Common.{◌≡◌, ◌≢◌, ◌⊎◌, refl, codes, [], ◌∷◌, any, true, text_beq, text_eq}
use cloacina.Router.{
  RoutingConfig, double_star, has_star, match_glob, match_segments, resolve, match_wildcard,
  split_stars, match_parts, ends_with,
}
use cloacina.Router.Segments.{suffixes, match_segments-double_star}
use cloacina.Router.Globs.{match_glob-prefix}
use cloacina.Router.Rules.{Decides, Silent, resolve_lem}
use cloacina.Store.Queries.{starts_with}

abbrev config : RoutingConfig
config = record {
  default_executor = codes "default";
  rules = record { task_pattern = codes "ml::**"; executor = codes "gpu" } ∷ [];
}

resolve_lem_example :
    Decides config.rules (codes "ml::train") (resolve config (codes "ml::train"))
    ⊎ (Silent (codes "ml::train") config.rules
        × (resolve config (codes "ml::train") ≡ config.default_executor))
resolve_lem_example = resolve_lem config (codes "ml::train")

match_segments-double_star_example :
    match_segments (double_star ∷ codes "load" ∷ []) (codes "etl" ∷ codes "load" ∷ [])
    ≡ any (match_segments (codes "load" ∷ [])) (suffixes (codes "etl" ∷ codes "load" ∷ []))
match_segments-double_star_example =
    match_segments-double_star (codes "load" ∷ []) (codes "etl" ∷ codes "load" ∷ []) load_not_star
  where
    load_not_star : (codes "load" ∷ []) ≢ double_star ∷ []
    load_not_star e = cc

match_glob-prefix_example :
    match_glob (codes "heavy_*") (codes "heavy_train")
    ≡ starts_with (codes "heavy_") (codes "heavy_train")
unfolding has_star
match_glob-prefix_example = match_glob-prefix (codes "heavy_") (codes "heavy_train") refl

-- The last part may overlap the first one.
overlap : match_glob (codes "a*a") (codes "a") ≡ true
unfolding match_glob match_wildcard has_star split_stars match_parts ends_with starts_with text_beq
overlap = refl
