-- ===== src/Scheduler/Dependencies.antt =====
-- What the check of a task's dependencies guarantees.
use cloacina.Common.{
  ℕ, ◌≡◌, refl, sym, subst, List, [], ◌∷◌, map, Option, none, some, Text, Bool, true, false, ◌&&◌,
  ◌==◌, nat_eq, text_eq, ◌⊎◌, inl, inr, Result, ok, err, arith, any, all, All, filter, mem,
  if◌then◌else◌, Bool-cases,
}
use cloacina.Common.Dict
use cloacina.Common.Dict.{HashMap}
use cloacina.Namespace.{TaskNamespace, to_string}
use cloacina.Store.Rows.{TaskExecution, PipelineExecution, Status, status_eq, status_beq_iff}
use cloacina.Store.Monad.{M, Db, ValidationError, and_then, connect, pure, ◌>>=◌}
use cloacina.Store.Runs.{>>=-ok, >>-ok, gets-ok, pure-ok}
use cloacina.Store.Queries.{of_pipeline, is_terminal, collect_statuses, get_task_statuses_batch}
use cloacina.Store.Frame.{SameTasks, SameTasks-Order}
use cloacina.Scheduler.Rules.{Json}
use cloacina.Scheduler.Contexts.{Registry, declared_dependencies}
use cloacina.Scheduler.Reads.{declared_dependencies-Keeps}
use cloacina.Scheduler.Writes.{check_task_dependencies-Keeps}
use cloacina.Scheduler.State.{
  Dispatch, dependencies_ended, ended, check_task_dependencies, update_task_readiness, act_on,
  evaluate_trigger_rules,
}

-- Some row of the pipeline bears the name and has ended.
unfoldable pub has_ended : ℕ → Text → List TaskExecution → Bool
has_ended i name rows =
    any (λ t. of_pipeline i t && t.task_name == name && is_terminal t.status) rows

get-collect_statuses :
    (name : Text) (ts : List TaskExecution) (m : HashMap Text Status) {s : Status}
    → Dict.get name (collect_statuses ts m) ≡ some s
    → (Dict.get name m ≡ some s) ⊎ (any (λ t. t.task_name == name && t.status == s) ts ≡ true)
unfolding collect_statuses
get-collect_statuses name [] m h = inl h
get-collect_statuses name (t ∷ ts) m {s} h =
    elim (get-collect_statuses name ts (Dict.insert t.task_name t.status m) h) [
      | inl first ↦ elim (Bool-cases (t.task_name == name)) [
        | inl same ↦
            inr (
              ground
                (arith, Dict.get-insert t.task_name name t.status m, status_beq_iff t.status s))
        | inr other ↦ inl (ground (arith, Dict.get-insert t.task_name name t.status m))
      ]
      | inr later ↦ inr (ground arith)
    ]

any-filter :
    (p q r : TaskExecution → Bool)
    → ((t : TaskExecution) → p t ≡ true → q t ≡ true → r t ≡ true)
    → (ts : List TaskExecution) → any q (filter p ts) ≡ true
    → any r ts ≡ true
any-filter p q r f [] h = h
any-filter p q r f (t ∷ ts) h = elim (Bool-cases (p t)) [
  | inl kept ↦ elim (Bool-cases (q t)) [
    | inl found ↦ ground (arith, f t kept found)
    | inr other ↦ ground (arith, any-filter p q r f ts (ground arith))
  ]
  | inr dropped ↦ ground (arith, any-filter p q r f ts (ground arith))
]

no-status : (name : Text) {s : Status} → Dict.get name [] ≡ some s → ⊥
no-status name h = ground (arith, Dict.get-nil {V = Status} name)

ended_sound :
    (i : ℕ) (names : List Text) (rows : List TaskExecution) (dep : TaskNamespace)
    → ended (collect_statuses (filter (λ t. of_pipeline i t && mem t.task_name names) rows) []) dep
      ≡ true
    → has_ended i (to_string dep) rows ≡ true
unfolding has_ended
ended_sound i names rows dep h = go (Dict.get (to_string dep) statuses) refl h
  where
    ours : TaskExecution → Bool
    ours t = of_pipeline i t && mem t.task_name names

    statuses : HashMap Text Status
    statuses = collect_statuses (filter ours rows) []

    go :
        (s : Option Status)
        → Dict.get (to_string dep) statuses ≡ s
        → (elim s [ none ↦ false | some status ↦ is_terminal status ]) ≡ true
        → has_ended i (to_string dep) rows ≡ true
    go none e k = cc
    go (some s) e k = elim (get-collect_statuses (to_string dep) (filter ours rows) [] e) [
      | inl none_yet ↦ absurd (no-status (to_string dep) none_yet)
      | inr row ↦
          any-filter ours _ _ (λ t a b. ground (arith, k, status_beq_iff t.status s)) rows row
    ]

all_sound :
    (p : TaskNamespace → Bool) (Q : TaskNamespace → Type 0)
    → ((d : TaskNamespace) → p d ≡ true → Q d)
    → (ds : List TaskNamespace) → all p ds ≡ true
    → All Q ds
all_sound p Q f [] h = tt
all_sound p Q f (d ∷ ds) h = (f d (ground arith), all_sound p Q f ds (ground arith))

-- Whatever the rows are: when the check answers that the dependencies have ended, each of them has
-- a row of the same pipeline, under its full name, that is completed, failed or skipped.
dependencies_ended_lem :
    (i : ℕ) (deps : List TaskNamespace) (db : Db)
    → (dependencies_ended i deps db).0 ≡ ok true
    → All (λ dep. has_ended i (to_string dep) db.tasks ≡ true) deps
unfolding dependencies_ended get_task_statuses_batch connect
dependencies_ended_lem i [] db h = tt
dependencies_ended_lem i (dep ∷ deps) db h =
    let r = >>=-ok (get_task_statuses_batch i (map to_string (dep ∷ deps))) _ db h in
    let answer = >>-ok connect _ db r.1 in
    let statuses = gets-ok _ (connect db).1 answer in
    all_sound _ _
      (λ d e.
        ended_sound i (map to_string (dep ∷ deps)) db.tasks d
          (subst (λ m. ended m d ≡ true) (sym statuses) e))
      (dep ∷ deps) (pure-ok _ _ r.2)

module _ (json : Json) (registry : Registry) (dispatcher : Option Dispatch) where
  -- The dependencies that the workflow of the task's pipeline declares have all ended.
  abbrev pub Satisfied : TaskExecution → Db → Type 0
  Satisfied t db =
      (d : PipelineExecution × List TaskNamespace) × ((declared_dependencies registry t db).0
        ≡ ok d)
      × All (λ dep. has_ended t.pipeline_execution_id (to_string dep) db.tasks ≡ true) d.1

  check-Satisfied :
      (t : TaskExecution) (db : Db)
      → (check_task_dependencies json registry dispatcher t db).0 ≡ ok true
      → Satisfied t db
  unfolding check_task_dependencies SameTasks
  check-Satisfied t db h =
      let r = >>=-ok (declared_dependencies registry t) _ db h in
      let same = (declared_dependencies-Keeps SameTasks-Order registry t).at db in
      (
        r.0,
        r.1,
        subst
            (λ rows.
              All (λ dep. has_ended t.pipeline_execution_id (to_string dep) rows ≡ true) r.0.1)
            same (dependencies_ended_lem t.pipeline_execution_id r.0.1 _ r.2),
      )

  -- The loop's body for a pending task either leaves the table of tasks as it is, or it finds the
  -- dependencies that the workflow declares, and each of them has ended: no task is made ready or
  -- skipped before its dependencies ended, whatever its trigger rule is, whatever the dispatcher
  -- does, and whichever call to the database fails.
  pub update_task_readiness-Satisfied :
      (t : TaskExecution) (db : Db)
      → ((update_task_readiness json registry dispatcher t db).1.tasks ≡ db.tasks) ⊎ Satisfied t db
  unfolding update_task_readiness ◌>>=◌ pure SameTasks
  update_task_readiness-Satisfied t db = go (check db).0 refl
    where
      check : M Bool
      check = check_task_dependencies json registry dispatcher t

      same : (check db).1.tasks ≡ db.tasks
      same = (check_task_dependencies-Keeps SameTasks-Order json registry dispatcher t).at db

      rest : Bool → M Unit
      rest satisfied =
          if satisfied
          then evaluate_trigger_rules json registry dispatcher t
            >>= act_on json registry dispatcher t
          else pure tt

      go :
          (r : Result ValidationError Bool)
          → (check db).0 ≡ r
          → ((and_then r rest (check db).1).1.tasks ≡ db.tasks) ⊎ Satisfied t db
      go (ok true) e = inr (check-Satisfied t db e)
      go (ok false) e = inl same
      go (err x) e = inl same
