-- ===== src/Context.antt =====
-- crates/cloacina-workflow/src/context.rs: the key-value context that tasks share. A method that
-- changes the context returns the new one; a refused call leaves none, as the caller keeps the old.
pub mod Laws
use cloacina.Common.{
  ◌≡◌, Bool, List, [], ◌∷◌, Option, Text, text_eq, Result, ok, err, if◌then◌else◌,
}
use cloacina.Common.Dict
use cloacina.Common.Dict.{HashMap, contains_key}

pub record Context (T : Type 0) : Type 0 where
  pub data_ : HashMap Text T

pub data ContextError : Type 0 where
  key_exists key_not_found : Text → ContextError

module _ {T : Type 0} where
  abbrev pub new : Context T
  new = record { data_ = [] }

  unfoldable pub insert : Text → T → Context T → Result ContextError (Context T)
  insert key value c =
      if contains_key key c.data_
      then err (key_exists key)
      else ok (record { data_ = Dict.insert key value c.data_ })

  unfoldable pub update : Text → T → Context T → Result ContextError (Context T)
  update key value c =
      if contains_key key c.data_
      then ok (record { data_ = Dict.insert key value c.data_ })
      else err (key_not_found key)

  unfoldable pub get : Text → Context T → Option T
  get key c = Dict.get key c.data_

  unfoldable pub remove : Text → Context T → Context T × Option T
  remove key c = (record { data_ = Dict.remove key c.data_ }, Dict.get key c.data_)

  abbrev pub from_data : HashMap Text T → Context T
  from_data entries = record { data_ = entries }
