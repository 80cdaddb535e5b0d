-- ===== src/Executor/Merging.antt =====
-- The merge of two JSON values: key by key on objects, and idempotent.
use cloacina.Common.{
  ◌≡◌, refl, ap, ◌∙◌, sym, Option, none, some, Text, ◌==◌, nat_eq, text_eq, if◌then◌else◌, arith,
  Bool-cases, inl, inr, ==→eq,
}
use cloacina.Executor.Values.{
  Value, Fields, end, field, get_field, insert_field, merge_context_values, merge_fields,
}

get-insert_field :
    (k j : Text) (v : Value) (fs : Fields)
    → get_field j (insert_field k v fs) ≡ (if k == j then some v else get_field j fs)
unfolding get_field insert_field
get-insert_field k j v end = refl
get-insert_field k j v (field i w fs) = ground (
  arith,
  text_eq.decides i k,
  text_eq.decides k j,
  text_eq.decides i j,
  get-insert_field k j v fs,
)

-- What one key of the merged object holds, from what the two objects hold.
abbrev pub combine : Option Value → Option Value → Option Value
combine old none = old
combine none (some new) = some new
combine (some old) (some new) = some (merge_context_values old new)

-- No key stands twice.
abbrev pub Distinct : Fields → Type 0
Distinct end = Unit
Distinct (field k v fs) = (get_field k fs ≡ none) × Distinct fs

-- One round of the loop, where the merged object holds `old` at the key.
insert_merged :
    (key : Text) (value : Value) (merged : Fields) (j : Text) (old : Option Value)
    → get_field key merged ≡ old
    → get_field j (elim old as (λ _. Fields) [
      | some existing_value ↦ insert_field key (merge_context_values existing_value value) merged
      | none ↦ insert_field key value merged
    ])
      ≡ (if key == j then combine (get_field j merged) (some value) else get_field j merged)
insert_merged key value merged j none e = elim (Bool-cases (key == j)) [
  | inl same ↦
      let eq : key ≡ j = ==→eq key j same in
      get-insert_field key j value merged ∙ rw (same, ← eq, e) refl
  | inr other ↦ get-insert_field key j value merged ∙ rw other refl
]
insert_merged key value merged j (some old) e = elim (Bool-cases (key == j)) [
  | inl same ↦
      let eq : key ≡ j = ==→eq key j same in
      get-insert_field key j (merge_context_values old value) merged ∙ rw (same, ← eq, e) refl
  | inr other ↦ get-insert_field key j (merge_context_values old value) merged ∙ rw other refl
]

-- The merge of two objects holds at each key what the two hold there, merged if both do: no key is
-- lost and none is made up. The keys of the new object are distinct.
pub merge_fields_lem :
    (new existing : Fields)
    → Distinct new
    → (j : Text)
    → get_field j (merge_fields existing new) ≡ combine (get_field j existing) (get_field j new)
unfolding merge_fields get_field
merge_fields_lem end existing d j = refl
merge_fields_lem (field k v fs) existing d j =
    merge_fields_lem fs _ d.1 j
    ∙ ap (λ o. combine o (get_field j fs))
        (insert_merged k v existing j (get_field k existing) refl)
    ∙ elim (Bool-cases (k == j)) [
      | inl same ↦
          let eq : k ≡ j = ==→eq k j same in
          let gone : get_field j fs ≡ none = ap (λ i. get_field i fs) (sym eq) ∙ d.0 in
          rw (same, gone) refl
      | inr other ↦ rw other refl
    ]
