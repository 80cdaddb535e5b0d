-- ===== src/Examples/Contexts.antt =====
-- The context: crates/cloacina-workflow/src/context.rs.
use cloacina.Common.{
  ℕ, ◌≡◌, ◌⊎◌, codes, Text, none, some, [], ◌∷◌, ok, err, if◌then◌else◌, ◌==◌, text_eq, true,
}
use cloacina.Common.Dict.{is_some}
use cloacina.Context.{Context, key_exists, key_not_found, insert, update, get}
use cloacina.Context.Laws.{insert_lem, update_lem}
use cloacina.Scheduler.Contexts.{merge_entries}
use cloacina.Scheduler.Merging.{last_of, merge_entries_lem}
use cloacina.Examples.Samples.{json}

abbrev config : Context ℕ
config = record { data_ = (codes "rows", 5) ∷ [] }

abbrev with_limit : Context ℕ
with_limit = record { data_ = (codes "rows", 5) ∷ (codes "limit", 9) ∷ [] }

insert_lem_example :
    ((get (codes "limit") config ≡ none)
      × ((c' : Context ℕ) × (insert (codes "limit") 9 config ≡ ok c')
          × ((j : Text) → get j c' ≡ (if codes "limit" == j then some 9 else get j config))))
    ⊎ ((is_some (get (codes "limit") config) ≡ true)
        × (insert (codes "limit") 9 config ≡ err (key_exists (codes "limit"))))
insert_lem_example = insert_lem (codes "limit") 9 config

update_lem_example :
    ((is_some (get (codes "rows") config) ≡ true)
      × ((c' : Context ℕ) × (update (codes "rows") 6 config ≡ ok c')
          × ((j : Text) → get j c' ≡ (if codes "rows" == j then some 6 else get j config))))
    ⊎ ((get (codes "rows") config ≡ none)
        × (update (codes "rows") 6 config ≡ err (key_not_found (codes "rows"))))
update_lem_example = update_lem (codes "rows") 6 config

merge_entries_lem_example :
    (c : Context ℕ) × (merge_entries json ((codes "rows", 6) ∷ (codes "limit", 9) ∷ []) config
      ≡ ok c)
    × ((j : Text)
        → get j c ≡ last_of json j ((codes "rows", 6) ∷ (codes "limit", 9) ∷ []) (get j config))
merge_entries_lem_example =
    merge_entries_lem json ((codes "rows", 6) ∷ (codes "limit", 9) ∷ []) config
