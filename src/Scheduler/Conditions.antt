-- ===== src/Scheduler/Conditions.antt =====
-- What a condition on the context says, operator by operator: `evaluate_context_condition` of
-- crates/cloacina/src/task_scheduler/context_manager.rs.
use cloacina.Common.{
  ◌≡◌, refl, Bool, true, false, not, ◌&&◌, ◌||◌, List, [], ◌∷◌, Option, none, some, Text,
  text_contains, ◌⊎◌, inl, inr, if◌then◌else◌,
}
use cloacina.Common.Dict.{is_some}
use cloacina.Context
use cloacina.Context.{Context}
use cloacina.Scheduler.Rules.{Json, ValueOperator}
use cloacina.Scheduler.Contexts.{
  evaluate_context_condition, value_mem, on_numbers, holds_in, equals_value,
}

-- The test says whether the proposition is true.
pub data Says (P : Type 0) : Bool → Type 0 where
  affirmed : P → Says P true
  refuted : ¬ P → Says P false

Says-test : (b : Bool) → Says (b ≡ true) b
Says-test true = affirmed refl
Says-test false = refuted (λ h. cc)

Says-not : {P : Type 0} {b : Bool} → Says P b → Says (¬ P) (not b)
Says-not (affirmed p) = refuted (λ r. r p)
Says-not (refuted r) = affirmed r

Says-and : {P Q : Type 0} {b c : Bool} → Says P b → Says Q c → Says (P × Q) (b && c)
Says-and (affirmed p) (affirmed q) = affirmed (p, q)
Says-and (affirmed p) (refuted r) = refuted (λ both. r both.1)
Says-and (refuted r) q = refuted (λ both. r both.0)

Says-or : {P Q : Type 0} {b c : Bool} → Says P b → Says Q c → Says (P ⊎ Q) (b || c)
Says-or (affirmed p) q = affirmed (inl p)
Says-or (refuted r) (affirmed q) = affirmed (inr q)
Says-or (refuted r) (refuted r') = refuted (λ either. elim either [ inl p ↦ r p | inr q ↦ r' q ])

Says-if :
    {P Q : Type 0} (b : Bool) {c d : Bool}
    → Says P c
    → Says Q d
    → Says (((b ≡ true) × P) ⊎ ((b ≡ false) × Q)) (if b then c else d)
Says-if true (affirmed p) q = affirmed (inl (refl, p))
Says-if true (refuted r) q = refuted (λ either. elim either [ inl p ↦ r p.1 | inr q ↦ absurd (cc) ])
Says-if false p (affirmed q) = affirmed (inr (refl, q))
Says-if false p (refuted r) =
    refuted (λ either. elim either [ inl p ↦ absurd (cc) | inr q ↦ r q.1 ])

module _ (json : Json) where
  open json use {Value}

  -- The context has the key, with a value of which the predicate holds.
  abbrev pub Present : Option Value → (Value → Type 0) → Type 0
  Present none P = ⊥
  Present (some a) P = P a

  -- Some element of the array equals the value.
  abbrev Member : Value → List Value → Type 0
  Member v [] = ⊥
  Member v (x ∷ xs) = (json.value_eq x v ≡ true) ⊎ Member v xs

  -- A text within a text, or else an element of an array.
  abbrev Contains : Value → Value → Type 0
  Contains expected a =
      ((json.is_string a && json.is_string expected ≡ true)
        × (text_contains (json.as_str a) (json.as_str expected) ≡ true))
      ⊎ ((json.is_string a && json.is_string expected ≡ false)
          × ((json.is_array a ≡ true) × Member expected (json.as_array a)))

  abbrev Numbers : Value → Value → Type 0 → Type 0
  Numbers a b P = ((json.is_number a ≡ true) × (json.is_number b ≡ true)) × P

  abbrev pub Holds : ValueOperator → Option Value → Value → Type 0
  Holds ValueOperator.exists actual expected = Present actual (λ a. Unit {0})
  Holds ValueOperator.not_exists actual expected = ¬ Present actual (λ a. Unit {0})
  Holds ValueOperator.equals actual expected = Present actual (λ a. json.value_eq a expected ≡ true)
  Holds ValueOperator.not_equals actual expected =
      ¬ Present actual (λ a. json.value_eq a expected ≡ true)
  Holds ValueOperator.greater_than actual expected =
      Present actual
        (λ a. Numbers a expected (json.f64_lt (json.as_f64 expected) (json.as_f64 a) ≡ true))
  Holds ValueOperator.less_than actual expected =
      Present actual
        (λ a. Numbers a expected (json.f64_lt (json.as_f64 a) (json.as_f64 expected) ≡ true))
  Holds ValueOperator.contains actual expected = Present actual (Contains expected)
  Holds ValueOperator.not_contains actual expected = ¬ Present actual (Contains expected)

  exists-Says : (actual : Option Value) → Says (Present actual (λ a. Unit {0})) (is_some actual)
  exists-Says none = refuted (λ impossible. impossible)
  exists-Says (some a) = affirmed tt

  equals-Says :
      (actual : Option Value) (expected : Value)
      → Says
          (Present actual (λ a. json.value_eq a expected ≡ true))
          (equals_value json actual expected)
  equals-Says none expected = refuted (λ impossible. impossible)
  equals-Says (some a) expected = Says-test _

  numbers-Says :
      (test : Value → Value → Bool) (actual : Option Value) (expected : Value)
      → Says
          (Present actual (λ a. Numbers a expected (test a expected ≡ true)))
          (on_numbers json test actual expected)
  numbers-Says test none expected = refuted (λ impossible. impossible)
  numbers-Says test (some a) expected =
      Says-and (Says-and (Says-test _) (Says-test _)) (Says-test _)

  Member-Says : (v : Value) (xs : List Value) → Says (Member v xs) (value_mem json v xs)
  Member-Says v [] = refuted (λ impossible. impossible)
  Member-Says v (x ∷ xs) = Says-or (Says-test _) (Member-Says v xs)

  Contains-Says :
      (actual : Option Value) (expected : Value)
      → Says (Present actual (Contains expected)) (holds_in json actual expected)
  Contains-Says none expected = refuted (λ impossible. impossible)
  Contains-Says (some a) expected =
      Says-if (json.is_string a && json.is_string expected) (Says-test _)
        (Says-and (Says-test _) (Member-Says expected (json.as_array a)))

  -- The evaluation says whether the condition holds.
  pub evaluate-Says :
      (context : Context Value) (key : Text) (operator : ValueOperator) (expected : Value)
      → Says
          (Holds operator (Context.get key context) expected)
          (evaluate_context_condition json context key operator expected)
  unfolding evaluate_context_condition
  evaluate-Says context key ValueOperator.exists expected = exists-Says _
  evaluate-Says context key ValueOperator.not_exists expected = Says-not (exists-Says _)
  evaluate-Says context key ValueOperator.equals expected = equals-Says _ expected
  evaluate-Says context key ValueOperator.not_equals expected = Says-not (equals-Says _ expected)
  evaluate-Says context key ValueOperator.greater_than expected = numbers-Says _ _ expected
  evaluate-Says context key ValueOperator.less_than expected = numbers-Says _ _ expected
  evaluate-Says context key ValueOperator.contains expected = Contains-Says _ expected
  evaluate-Says context key ValueOperator.not_contains expected =
      Says-not (Contains-Says _ expected)
