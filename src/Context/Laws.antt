-- ===== src/Context/Laws.antt =====
-- The context as a partial map: what each method does to every key.
use cloacina.Common.{
  ◌≡◌, ◌⊎◌, refl, ap, ◌∙◌, sym, true, Option, none, some, Text, text_eq, ok, err, if◌then◌else◌,
  ◌==◌, arith, ok-injective, Bool-cases, inl, inr, ==_refl, ==→eq, subst,
}
use cloacina.Common.Dict
use cloacina.Common.Dict.{is_some, contains_key}
use cloacina.Context.{Context, key_exists, key_not_found, insert, update, get, remove}

module _ {T : Type 0} where
  get-put :
      (key j : Text) (value : T) (c : Context T)
      → get j (record { data_ = Dict.insert key value c.data_ })
        ≡ (if key == j then some value else get j c)
  unfolding get
  get-put key j value c = Dict.get-insert key j value c.data_

  -- `insert` succeeds on exactly the keys that are absent, and then only that key changes; on a
  -- key that is there it is refused with that key.
  pub insert_lem :
      (key : Text) (value : T) (c : Context T)
      → ((get key c ≡ none)
          × ((c' : Context T) × (insert key value c ≡ ok c')
              × ((j : Text) → get j c' ≡ (if key == j then some value else get j c))))
        ⊎ ((is_some (get key c) ≡ true) × (insert key value c ≡ err (key_exists key)))
  unfolding insert get
  insert_lem key value c = go (Dict.get key c.data_) refl
    where
      go :
          (o : Option T)
          → Dict.get key c.data_ ≡ o
          → ((Dict.get key c.data_ ≡ none)
              × ((c' : Context T) × (insert key value c ≡ ok c')
                  × ((j : Text)
                      → Dict.get j c'.data_
                        ≡ (if key == j then some value else Dict.get j c.data_))))
            ⊎ ((is_some (Dict.get key c.data_) ≡ true)
                × (insert key value c ≡ err (key_exists key)))
      go none e = inl (
        e,
        (
          record { data_ = Dict.insert key value c.data_ },
          rw e refl,
          λ j. Dict.get-insert key j value c.data_,
        ),
      )
      go (some v) e = inr (rw e refl, rw e refl)

  -- `update` succeeds on exactly the keys that are there, and then only that key changes; on an
  -- absent key it is refused with that key.
  pub update_lem :
      (key : Text) (value : T) (c : Context T)
      → ((is_some (get key c) ≡ true)
          × ((c' : Context T) × (update key value c ≡ ok c')
              × ((j : Text) → get j c' ≡ (if key == j then some value else get j c))))
        ⊎ ((get key c ≡ none) × (update key value c ≡ err (key_not_found key)))
  unfolding update get
  update_lem key value c = go (Dict.get key c.data_) refl
    where
      go :
          (o : Option T)
          → Dict.get key c.data_ ≡ o
          → ((is_some (Dict.get key c.data_) ≡ true)
              × ((c' : Context T) × (update key value c ≡ ok c')
                  × ((j : Text)
                      → Dict.get j c'.data_
                        ≡ (if key == j then some value else Dict.get j c.data_))))
            ⊎ ((Dict.get key c.data_ ≡ none) × (update key value c ≡ err (key_not_found key)))
      go none e = inr (e, rw e refl)
      go (some v) e = inl (
        rw e refl,
        (
          record { data_ = Dict.insert key value c.data_ },
          rw e refl,
          λ j. Dict.get-insert key j value c.data_,
        ),
      )

  -- Removing a key that was just inserted gives its value back and the old context.
  remove-insert :
      (key : Text) (value : T) (c : Context T) {c' : Context T}
      → insert key value c ≡ ok c'
      → ((remove key c').1 ≡ some value) × ((j : Text) → get j (remove key c').0 ≡ get j c)
  unfolding remove get
  remove-insert key value c {c'} h = elim (insert_lem key value c) [
    | inr (there, refused) ↦ absurd (ground (arith, refused))
    | inl (absent, (d, e, f)) ↦
        let same = ok-injective (sym e ∙ h) in
        let g = λ (j : Text).
          subst
            (λ (b : Context T).
              Dict.get j b.data_ ≡ (if key == j then some value else Dict.get j c.data_))
            same (f j) in
        (
          g key ∙ rw (==_refl key) refl,
          λ j. elim (Bool-cases (key == j)) [
            | inl here ↦
                Dict.get-remove key j c'.data_
                ∙ rw here (sym absent ∙ ap (λ i. Dict.get i c.data_) (==→eq key j here))
            | inr there ↦ Dict.get-remove key j c'.data_ ∙ rw there (g j ∙ rw there refl)
          ],
        )
  ]
