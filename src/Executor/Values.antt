-- ===== src/Executor/Values.antt =====
-- `serde_json::Value` as the executor takes it apart, and `merge_context_values` of
-- crates/cloacina/src/executor/thread_task_executor.rs. A number is a code, one for all numbers that
-- compare as equal. An object is a map ordered by its keys.
use cloacina.Common.{
  ℕ, Bool, true, false, ◌&&◌, ◌||◌, [], ◌∷◌, Option, none, some, Text, ◌==◌, nat_eq, text_eq, ltb,
  if◌then◌else◌,
}

mutual
  pub data Value : Type 0 where
    null : Value
    bool : Bool → Value
    number : ℕ → Value
    string : Text → Value
    array : Items → Value
    object : Fields → Value

  pub data Items : Type 0 where
    nil : Items
    item : Value → Items → Items

  pub data Fields : Type 0 where
    end : Fields
    field : Text → Value → Fields → Fields

abbrev bool_eq : Bool → Bool → Bool
bool_eq true b = b
bool_eq false true = false
bool_eq false false = true

unfoldable mutual
  pub value_eq : Value → Value → Bool
  value_eq null null = true
  value_eq (bool a) (bool b) = bool_eq a b
  value_eq (number a) (number b) = a == b
  value_eq (string a) (string b) = a == b
  value_eq (array xs) (array ys) = items_eq xs ys
  value_eq (object xs) (object ys) = fields_eq xs ys
  value_eq _ _ = false

  pub items_eq : Items → Items → Bool
  items_eq nil nil = true
  items_eq (item x xs) (item y ys) = value_eq x y && items_eq xs ys
  items_eq _ _ = false

  pub fields_eq : Fields → Fields → Bool
  fields_eq end end = true
  fields_eq (field j v xs) (field k w ys) = j == k && value_eq v w && fields_eq xs ys
  fields_eq _ _ = false

-- The order of `String`, byte by byte.
unfoldable pub text_lt : Text → Text → Bool
text_lt s [] = false
text_lt [] (d ∷ t) = true
text_lt (c ∷ s) (d ∷ t) = ltb c d || (c == d && text_lt s t)

-- `Map::get` and `Map::insert`
unfoldable pub get_field : Text → Fields → Option Value
get_field k end = none
get_field k (field j v fs) = if j == k then some v else get_field k fs

unfoldable pub insert_field : Text → Value → Fields → Fields
insert_field k v end = field k v end
insert_field k v (field j w fs) =
    if j == k
    then field k v fs
    else if text_lt k j
    then field k v (field j w fs)
    else field j w (insert_field k v fs)

-- `Vec::contains` and `Vec::push`
unfoldable pub contains_item : Value → Items → Bool
contains_item v nil = false
contains_item v (item x xs) = value_eq x v || contains_item v xs

unfoldable pub push_item : Value → Items → Items
push_item v nil = item v nil
push_item v (item x xs) = item x (push_item v xs)

-- The loop over the new array.
unfoldable pub push_missing : Items → Items → Items
push_missing merged nil = merged
push_missing merged (item x xs) =
    push_missing (if contains_item x merged then merged else push_item x merged) xs

-- Arrays are joined without repetition, objects merged key by key; otherwise the new value wins.
-- `merge_fields` is the loop over the new object.
unfoldable mutual
  pub merge_context_values : Value → Value → Value
  merge_context_values (array existing) (array new) = array (push_missing existing new)
  merge_context_values (object existing) (object new) = object (merge_fields existing new)
  merge_context_values _ new = new

  pub merge_fields : Fields → Fields → Fields
  merge_fields merged end = merged
  merge_fields merged (field key value new) =
      merge_fields
        (elim (get_field key merged) [
          | some existing_value ↦
              insert_field key (merge_context_values existing_value value) merged
          | none ↦ insert_field key value merged
        ])
        new
