-- ===== src/Executor/Idempotence.antt =====
-- Merging a JSON value into itself.
use cloacina.Common.{
  ◌≡◌, refl, ap, Bool, true, false, ◌&&◌, [], ◌∷◌, some, Text, nat_eq, text_eq, arith, ==_refl,
}
use cloacina.Executor.Values.{
  Value, Items, Fields, null, bool, number, string, array, object, nil, item, end, field, value_eq,
  items_eq, fields_eq, get_field, insert_field, contains_item, push_missing, text_lt,
  merge_context_values, merge_fields,
}

mutual
  unfolding value_eq

  value_eq_refl : (v : Value) → value_eq v v ≡ true
  value_eq_refl null = refl
  value_eq_refl (bool true) = refl
  value_eq_refl (bool false) = refl
  value_eq_refl (number n) = ground arith
  value_eq_refl (string s) = ==_refl s
  value_eq_refl (array xs) = items_eq_refl xs
  value_eq_refl (object fs) = fields_eq_refl fs

  items_eq_refl : (xs : Items) → items_eq xs xs ≡ true
  items_eq_refl nil = refl
  items_eq_refl (item x xs) = rw (value_eq_refl x) (items_eq_refl xs)

  fields_eq_refl : (fs : Fields) → fields_eq fs fs ≡ true
  fields_eq_refl end = refl
  fields_eq_refl (field k v fs) = rw (==_refl k, value_eq_refl v) (fields_eq_refl fs)

-- Each item of the second array stands in the first.
contains_all : Items → Items → Bool
contains_all merged nil = true
contains_all merged (item x xs) = contains_item x merged && contains_all merged xs

contains_all-item :
    (y : Value) (merged xs : Items)
    → contains_all merged xs ≡ true
    → contains_all (item y merged) xs ≡ true
unfolding contains_all contains_item
contains_all-item y merged nil h = refl
contains_all-item y merged (item x xs) h = ground (arith, contains_all-item y merged xs)

contains_all_refl : (xs : Items) → contains_all xs xs ≡ true
unfolding contains_all contains_item
contains_all_refl nil = refl
contains_all_refl (item x xs) =
    rw (value_eq_refl x) (contains_all-item x xs xs (contains_all_refl xs))

push_missing_same :
    (merged xs : Items) → contains_all merged xs ≡ true → push_missing merged xs ≡ merged
unfolding push_missing contains_all
push_missing_same merged nil h = refl
push_missing_same merged (item x xs) h = ground (arith, push_missing_same merged xs)

text_lt_asym : (s t : Text) → text_lt s t ≡ true → text_lt t s ≡ false
unfolding text_lt
text_lt_asym [] [] h = refl
text_lt_asym [] (d ∷ t) h = refl
text_lt_asym (c ∷ s) [] h = cc
text_lt_asym (c ∷ s) (d ∷ t) h = ground (arith, text_lt_asym s t)

-- The keys of a map stand in their order, at each level of objects in objects.
unfoldable pub above : Text → Fields → Bool
above k end = true
above k (field j w fs) = text_lt k j && above k fs

unfoldable mutual
  pub Ordered : Value → Type 0
  Ordered (object fs) = OrderedFields fs
  Ordered _ = Unit {0}

  pub OrderedFields : Fields → Type 0
  OrderedFields end = Unit {0}
  OrderedFields (field k v fs) = (above k fs ≡ true) × Ordered v × OrderedFields fs

above-get :
    (j k : Text) (fs : Fields) (v : Value)
    → above j fs ≡ true
    → get_field k fs ≡ some v
    → text_lt j k ≡ true
unfolding above get_field
above-get j k end v h e = absurd (cc)
above-get j k (field i w fs) v h e = ground (arith, text_eq.decides i k, above-get j k fs v)

insert_field_same :
    (k : Text) (v : Value) (fs : Fields)
    → OrderedFields fs
    → get_field k fs ≡ some v
    → insert_field k v fs ≡ fs
unfolding get_field insert_field Ordered
insert_field_same k v end o e = absurd (cc)
insert_field_same k v (field j w fs) o e =
    ground (
      arith,
      text_eq.decides j k,
      above-get j k fs v,
      text_lt_asym j k,
      insert_field_same k v fs o.2,
    )

-- Each entry of the second map is what the first holds at its key.
Agrees : Fields → Fields → Type 0
Agrees all end = Unit {0}
Agrees all (field k v fs) = (get_field k all ≡ some v) × Agrees all fs

text_lt_irrefl : (s : Text) → text_lt s s ≡ false
unfolding text_lt
text_lt_irrefl [] = refl
text_lt_irrefl (c ∷ s) = ground (arith, text_lt_irrefl s)

-- An entry below all others does not change what they say.
Agrees-field :
    (k : Text) (v : Value) (all fs : Fields)
    → above k fs ≡ true
    → Agrees all fs
    → Agrees (field k v all) fs
unfolding Agrees above get_field
Agrees-field k v all end h a = tt
Agrees-field k v all (field j w fs) h a = (
  ground (arith, text_eq.decides k j, text_lt_irrefl k),
  Agrees-field k v all fs (ground arith) a.1,
)

Agrees-refl : (fs : Fields) → OrderedFields fs → Agrees fs fs
unfolding Agrees get_field Ordered
Agrees-refl end o = tt
Agrees-refl (field k v fs) o =
    (rw (==_refl k) refl, Agrees-field k v fs fs o.0 (Agrees-refl fs o.2))

mutual
  unfolding merge_context_values Ordered Agrees

  merge_same : (v : Value) → Ordered v → merge_context_values v v ≡ v
  merge_same null o = refl
  merge_same (bool b) o = refl
  merge_same (number n) o = refl
  merge_same (string s) o = refl
  merge_same (array xs) o = ap array (push_missing_same xs xs (contains_all_refl xs))
  merge_same (object fs) o = ap object (merge_fields_same fs fs o o (Agrees-refl fs o))

  merge_fields_same :
      (fs all : Fields)
      → OrderedFields fs
      → OrderedFields all
      → Agrees all fs
      → merge_fields all fs ≡ all
  merge_fields_same end all o w a = refl
  merge_fields_same (field k v fs) all o w a =
      rw (a.0, merge_same v o.1, insert_field_same k v all w a.0)
        (merge_fields_same fs all o.2 w a.1)
