-- ===== src/Scheduler/Merging.antt =====
-- The merge of the contexts of several dependencies.
use cloacina.Common.{
  ◌≡◌, refl, ap, ◌∙◌, [], ◌∷◌, Option, some, Text, text_eq, ok, if◌then◌else◌, ◌==◌, arith,
  Bool-cases, inl, inr,
}
use cloacina.Common.Dict.{HashMap, is_some}
use cloacina.Context
use cloacina.Context.{Context, ContextError}
use cloacina.Context.Laws.{insert_lem, update_lem}
use cloacina.Scheduler.Rules.{Json}
use cloacina.Scheduler.Contexts.{merge_entry, merge_entries}

module _ (json : Json) where
  open json use {Value}

  -- The value of a key after the entries: the last entry of the key, or what was there.
  abbrev pub last_of : Text → HashMap Text Value → Option Value → Option Value
  last_of key [] old = old
  last_of key ((k, v) ∷ entries) old = last_of key entries (if k == key then some v else old)

  abbrev Merged : Text → Value → Context Value → Type 0
  Merged key value merged =
      (c : Context Value) × (merge_entry json key value merged ≡ ok c)
      × ((j : Text) → Context.get j c ≡ (if key == j then some value else Context.get j merged))

  merge_entry_lem : (key : Text) (value : Value) (merged : Context Value) → Merged key value merged
  unfolding merge_entry
  merge_entry_lem key value merged = elim (Bool-cases (is_some (Context.get key merged))) [
    | inl there ↦ elim (update_lem key value merged) [
      | inl (_, r) ↦ rw there r
      | inr (absent, _) ↦ absurd (ground arith)
    ]
    | inr absent ↦ elim (insert_lem key value merged) [
      | inl (_, r) ↦ rw absent r
      | inr (there, _) ↦ absurd (ground arith)
    ]
  ]

  -- Merging the entries of a dependency's context into the merged one never fails, so the error
  -- branches of the two calls are never taken; and each key ends with the last value that the
  -- entries give it, or with its old one: a later dependency overrides an earlier one.
  pub merge_entries_lem :
      (entries : HashMap Text Value) (merged : Context Value)
      → (c : Context Value) × (merge_entries json entries merged ≡ ok c)
        × ((j : Text) → Context.get j c ≡ last_of j entries (Context.get j merged))
  unfolding merge_entries
  merge_entries_lem [] merged = (merged, refl, λ j. refl)
  merge_entries_lem ((key, value) ∷ entries) merged =
      let (d, e, f) = merge_entry_lem key value merged in
      let (c, g, h) = merge_entries_lem entries d in
      (c, rw (e, merge_entries) g, λ j. h j ∙ ap (last_of j entries) (f j))
