-- ===== src/Scheduler/Verdicts.antt =====
-- What a trigger rule that holds says of the task rows.
use cloacina.Common.{
  ℕ, ◌≡◌, refl, ap, ◌∙◌, sym, subst, List, [], ◌∷◌, Option, none, some, Bool, true, false, not, All,
  Text, Result, ok, err, arith, if◌then◌else◌, ◌==◌, nat_eq, ◌⊎◌, inl, inr, Bool-cases,
}
use cloacina.Store.Rows.{TaskExecution, Status, status_eq}
use cloacina.Store.Monad.{M, Db, ValidationError, and_then, connect, gets, pure, throw, ◌>>=◌}
use cloacina.Store.Runs.{>>=-ok, >>-ok, gets-ok, pure-ok}
use cloacina.Store.Queries.{find_status, get_task_status, found}
use cloacina.Store.Keeps.{Order}
use cloacina.Context
use cloacina.Context.{Context}
use cloacina.Scheduler.Rules.{
  Json, TriggerRule, TriggerCondition, ValueOperator, task_success, task_failed, task_skipped,
  context_value, always, all_of, any_of, none_of,
}
use cloacina.Scheduler.Contexts.{Registry, load_context_for_task}
use cloacina.Scheduler.Conditions.{Says, Holds, evaluate-Says}
use cloacina.Scheduler.State.{
  Dispatch, has_status, evaluate_condition, evaluate_until, evaluate_rule,
}
use cloacina.Scheduler.Writes.{evaluate_condition-Keeps}

-- The row of the pipeline with the name has the status, or has not, as `b` says.
abbrev pub StatusIs : ℕ → Text → Status → Bool → List TaskExecution → Type 0
StatusIs i name expected b rows =
    (s : Status) × (find_status i name rows ≡ some s) × ((s == expected) ≡ b)

-- A predicate that holds of some member.
abbrev pub Some : {A : Type 0} → (A → Type 0) → List A → Type 0
Some P [] = ⊥
Some P (x ∷ xs) = P x ⊎ Some P xs

abbrev at_call : ℕ → Db → Db
at_call k db = record db { calls = k }

-- The one state comes from the other by calls that write nothing.
unfoldable pub OnlyCalls : Db → Db → Type 0
OnlyCalls a b = b ≡ record a { calls = b.calls }

OnlyCalls-Order : Order OnlyCalls
unfolding OnlyCalls connect
OnlyCalls-Order = record {
  same = λ db. refl;
  trans = λ {a} {b} {c} p q. q ∙ ap (at_call c.calls) p;
  after_connect = λ db. refl;
}

module _ (json : Json) (registry : Registry) (t : TaskExecution) (db : Db) where
  -- The context that the task gets loads from the tables, at some call, and the condition is true of
  -- it, or false, as `b` says.
  abbrev pub ContextIs : Text → ValueOperator → json.Value → Bool → Type 0
  ContextIs key operator value b =
      (k : ℕ) × (context : Context json.Value) × ((load_context_for_task json registry t
          (record db { calls = k })).0
        ≡ ok context)
      × Says (Holds json operator (Context.get key context) value) b

  -- The answer `b` of a condition is what the tables say.
  abbrev pub Verdict : Bool → TriggerCondition json.Value → Type 0
  Verdict b (task_success name) = StatusIs t.pipeline_execution_id name Status.completed b db.tasks
  Verdict b (task_failed name) = StatusIs t.pipeline_execution_id name Status.failed b db.tasks
  Verdict b (task_skipped name) = StatusIs t.pipeline_execution_id name Status.skipped b db.tasks
  Verdict b (context_value key operator value) = ContextIs key operator value b

  abbrev pub RuleVerdict : TriggerRule json.Value → Type 0
  RuleVerdict always = Unit
  RuleVerdict (all_of cs) = All (Verdict true) cs
  RuleVerdict (any_of cs) = Some (Verdict true) cs
  RuleVerdict (none_of cs) = All (Verdict false) cs

found-ok : {A : Type 0} (o : Option A) (db : Db) {a : A} → (found o db).0 ≡ ok a → o ≡ some a
unfolding found throw pure
found-ok none db h = cc
found-ok (some b) db h = cc

if_true :
    {b : Bool} (m n : M Bool) (db : Db) {c : Bool}
    → b ≡ true
    → ((if b then m else n) db).0 ≡ ok c
    → (m db).0 ≡ ok c
if_true {b} m n db {c} e h = subst (λ b. ((if b then m else n) db).0 ≡ ok c) e h

if_false :
    {b : Bool} (m n : M Bool) (db : Db) {c : Bool}
    → b ≡ false
    → ((if b then m else n) db).0 ≡ ok c
    → (n db).0 ≡ ok c
if_false {b} m n db {c} e h = subst (λ b. ((if b then m else n) db).0 ≡ ok c) e h

differ : (a b : Bool) → a ≡ not b → ¬ (a ≡ b)
differ a b e h = ground arith

answer : (stop b : Bool) → (if stop then b else not b) ≡ false → b ≡ not stop
answer stop b h = ground arith

module _ (json : Json) (registry : Registry) (dispatcher : Option Dispatch) where
  has_status_lem :
      (t : TaskExecution) (name : Text) (expected : Status) (db : Db) {b : Bool}
      → (has_status json registry dispatcher t name expected db).0 ≡ ok b
      → StatusIs t.pipeline_execution_id name expected b db.tasks
  unfolding has_status get_task_status connect
  has_status_lem t name expected db h =
      let r = >>=-ok (get_task_status t.pipeline_execution_id name) _ db h in
      let row = >>=-ok (gets _) found _ (>>-ok connect _ db r.1) in
      (r.0, gets-ok _ _ row.1 ∙ found-ok row.0 _ row.2, pure-ok _ _ r.2)

  condition-Verdict :
      (c : TriggerCondition json.Value) (t : TaskExecution) (db : Db) {b : Bool}
      → (evaluate_condition json registry dispatcher c t db).0 ≡ ok b
      → Verdict json registry t db b c
  unfolding evaluate_condition
  condition-Verdict (task_success name) t db h = has_status_lem t name _ db h
  condition-Verdict (task_failed name) t db h = has_status_lem t name _ db h
  condition-Verdict (task_skipped name) t db h = has_status_lem t name _ db h
  condition-Verdict (context_value key op value) t db h =
      let r = >>=-ok (load_context_for_task json registry t) _ db h in
      (
        db.calls,
        r.0,
        r.1,
        subst (Says (Holds json op (Context.get key r.0) value)) (pure-ok _ _ r.2)
            (evaluate-Says json r.0 key op value),
      )

  abbrev next : TriggerCondition json.Value → TaskExecution → Db → Db
  next c t db = (evaluate_condition json registry dispatcher c t db).1

  next-OnlyCalls :
      (c : TriggerCondition json.Value) (t : TaskExecution) (db : Db)
      → next c t db ≡ record db { calls = (next c t db).calls }
  unfolding OnlyCalls
  next-OnlyCalls c t db =
      (evaluate_condition-Keeps OnlyCalls-Order json registry dispatcher c t).at db

  -- A loop that ends late has met no condition that stops it.
  late-All :
      (stop early late : Bool)
      → (early ≡ not late)
      → (cs : List (TriggerCondition json.Value)) (t : TaskExecution) (db : Db)
      → (evaluate_until json registry dispatcher stop early late cs t db).0 ≡ ok late
      → All (Verdict json registry t db (not stop)) cs
  unfolding evaluate_until
  late-All stop early late diff [] t db h = tt
  late-All stop early late diff (c ∷ cs) t db h =
      let r = >>=-ok (evaluate_condition json registry dispatcher c t) _ db h in
      elim (Bool-cases (if stop then r.0 else not r.0)) [
        | inl stopped ↦
            absurd (differ early late diff (pure-ok early _ (if_true _ _ _ stopped r.2)))
        | inr passed ↦ (
          subst (λ b. Verdict json registry t db b c) (answer stop r.0 passed)
              (condition-Verdict c t db r.1),
          subst (λ d. All (Verdict json registry t d (not stop)) cs) (next-OnlyCalls c t db)
              (late-All stop early late diff cs t (next c t db) (if_false _ _ _ passed r.2)),
        )
      ]

  -- `any_of` that holds has met a condition that does.
  early-Some :
      (cs : List (TriggerCondition json.Value)) (t : TaskExecution) (db : Db)
      → (evaluate_until json registry dispatcher true true false cs t db).0 ≡ ok true
      → Some (Verdict json registry t db true) cs
  unfolding evaluate_until
  early-Some [] t db h = differ true false refl (sym (pure-ok false db h))
  early-Some (c ∷ cs) t db h =
      let r = >>=-ok (evaluate_condition json registry dispatcher c t) _ db h in
      elim (Bool-cases r.0) [
        | inl met ↦
            inl (subst (λ b. Verdict json registry t db b c) met (condition-Verdict c t db r.1))
        | inr unmet ↦ inr (
            subst (λ d. Some (Verdict json registry t d true) cs) (next-OnlyCalls c t db)
              (early-Some cs t (next c t db) (if_false _ _ _ unmet r.2)))
      ]

  -- When a trigger rule holds, the tables say so: under `all_of` each condition holds, under
  -- `any_of` some condition does, and under `none_of` each is false. A condition on the status of a
  -- task is true or false by the task's row, which is there in either case. A condition on the
  -- context is true or false by the context that the task's dependencies give, which loads in either
  -- case: by whether it has the key, and by whether the value under the key equals the expected one,
  -- is a number above or below it, or contains it, as a text or as an array does.
  pub evaluate_rule_lem :
      (rule : TriggerRule json.Value) (t : TaskExecution) (db : Db)
      → (evaluate_rule json registry dispatcher rule t db).0 ≡ ok true
      → RuleVerdict json registry t db rule
  unfolding evaluate_rule
  evaluate_rule_lem always t db h = tt
  evaluate_rule_lem (all_of cs) t db h = late-All false false true refl cs t db h
  evaluate_rule_lem (any_of cs) t db h = early-Some cs t db h
  evaluate_rule_lem (none_of cs) t db h = late-All true false true refl cs t db h

  opposite :
      (cs : List (TriggerCondition json.Value)) (t : TaskExecution) (db : Db)
      → evaluate_until json registry dispatcher true false true cs t db
        ≡ (evaluate_until json registry dispatcher true true false cs t >>= λ b. pure (not b)) db
  unfolding evaluate_until ◌>>=◌ pure
  opposite [] t db = refl
  opposite (c ∷ cs) t db =
      step (evaluate_condition json registry dispatcher c t db).0 (opposite cs t (next c t db))
    where
      rest : Bool → Bool → Bool → M Bool
      rest early late b =
          if b then pure early else evaluate_until json registry dispatcher true early late cs t

      negate : Result ValidationError Bool × Db → Result ValidationError Bool × Db
      negate o = and_then o.0 (λ b. pure (not b)) o.1

      step :
          (r : Result ValidationError Bool)
          → rest false true false (next c t db) ≡ negate (rest true false false (next c t db))
          → and_then r (rest false true) (next c t db)
            ≡ negate (and_then r (rest true false) (next c t db))
      step (err e) later = refl
      step (ok true) later = refl
      step (ok false) later = later

  -- `none_of` answers the opposite of `any_of` over the same conditions, fails where it fails, and
  -- leaves the same database.
  none_of-any_of :
      (cs : List (TriggerCondition json.Value)) (t : TaskExecution) (db : Db)
      → evaluate_rule json registry dispatcher (none_of cs) t db
        ≡ (evaluate_rule json registry dispatcher (any_of cs) t >>= λ b. pure (not b)) db
  unfolding evaluate_rule
  none_of-any_of cs t db = opposite cs t db
