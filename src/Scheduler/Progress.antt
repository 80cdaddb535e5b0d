-- ===== src/Scheduler/Progress.antt =====
-- A pending task whose dependencies have ended is made ready.
use cloacina.Common.{
  ℕ, ◌≡◌, refl, ap, ◌∙◌, sym, subst, List, [], ◌∷◌, map, Option, none, some, Text, Bool, true,
  false, not, ◌&&◌, ◌||◌, ◌==◌, nat_eq, text_eq, inl, inr, ok, arith, any, all, All, filter, mem,
  Bool-cases, ==_refl, ==→eq, All-map,
}
use cloacina.Common.Dict
use cloacina.Common.Dict.{HashMap}
use cloacina.Namespace.{TaskNamespace, to_string}
use cloacina.Store.Rows.{TaskExecution, PipelineExecution, Status, status_eq}
use cloacina.Store.Monad.{Db, World, connect, gets, modify, pure, lift, ◌>>=◌, ◌>>◌}
use cloacina.Store.Tasks.{update_where, mark_ready, set_ready}
use cloacina.Store.Queries.{of_pipeline, is_terminal, collect_statuses, get_task_statuses_batch}
use cloacina.Store.Frame.{SameTasks, SameTasks-Order}
use cloacina.Scheduler.Rules.{Json, always}
use cloacina.Scheduler.Contexts.{Registry, declared_dependencies}
use cloacina.Scheduler.Reads.{declared_dependencies-Keeps, dependencies_ended-Keeps}
use cloacina.Scheduler.State.{
  dependencies_ended, ended, check_task_dependencies, update_task_readiness, evaluate_trigger_rules,
  evaluate_rule, act_on, dispatch_with,
}
use cloacina.Scheduler.Ending.{SameWorld, SameWorld-Order}
use cloacina.Scheduler.Abandonment.{Reliable}

abbrev is_ended : Option Status → Bool
is_ended none = false
is_ended (some s) = is_terminal s

-- Every row with the name has ended.
abbrev named_ended : Text → List TaskExecution → Bool
named_ended name ts = all (λ t. not (t.task_name == name) || is_terminal t.status) ts

collect-stays :
    (name : Text) (ts : List TaskExecution) (m : HashMap Text Status)
    → named_ended name ts ≡ true
    → is_ended (Dict.get name m) ≡ true
    → is_ended (Dict.get name (collect_statuses ts m)) ≡ true
unfolding collect_statuses
collect-stays name [] m h e = e
collect-stays name (t ∷ ts) m h e =
    collect-stays name ts (Dict.insert t.task_name t.status m) (ground arith)
      (one t m (ground arith) e)
  where
    one :
        (t : TaskExecution) (m : HashMap Text Status)
        → (not (t.task_name == name) || is_terminal t.status) ≡ true
        → is_ended (Dict.get name m) ≡ true
        → is_ended (Dict.get name (Dict.insert t.task_name t.status m)) ≡ true
    one t m h e = elim (Bool-cases (t.task_name == name)) [
      | inl here ↦ rw (Dict.get-insert t.task_name name t.status m, here) (rw here at h)
      | inr there ↦ rw (Dict.get-insert t.task_name name t.status m, there) e
    ]

collect-ends :
    (name : Text) (ts : List TaskExecution) (m : HashMap Text Status)
    → named_ended name ts ≡ true
    → any (λ t. t.task_name == name) ts ≡ true
    → is_ended (Dict.get name (collect_statuses ts m)) ≡ true
unfolding collect_statuses
collect-ends name [] m h e = absurd (cc)
collect-ends name (t ∷ ts) m h e = elim (Bool-cases (t.task_name == name)) [
  | inl here ↦
      let first : (not (t.task_name == name) || is_terminal t.status) ≡ true = ground arith in
      collect-stays name ts _ (ground arith)
        (rw (Dict.get-insert t.task_name name t.status m, here) (rw here at first))
  | inr there ↦ collect-ends name ts _ (ground arith) (ground arith)
]

-- The pipeline has a row with the name, and all of its rows with the name have ended.
unfoldable pub only_ended : ℕ → Text → List TaskExecution → Bool
only_ended i name rows =
    any (λ t. of_pipeline i t && t.task_name == name) rows
    && all (λ t. not (of_pipeline i t && t.task_name == name) || is_terminal t.status) rows

both : (a b : Bool) → (a && b) ≡ true → a ≡ true
both a b h = ground arith

any-kept :
    (p q r : TaskExecution → Bool)
    → ((t : TaskExecution) → q t ≡ true → (p t && r t) ≡ true)
    → (ts : List TaskExecution) → any q ts ≡ true
    → any r (filter p ts) ≡ true
any-kept p q r f [] h = h
any-kept p q r f (t ∷ ts) h = elim (Bool-cases (q t)) [
  | inl hit ↦
      let kept : p t ≡ true = both (p t) (r t) (f t hit) in rw kept (ground (arith, f t hit))
  | inr miss ↦
      let rest = any-kept p q r f ts (rw miss at h) in
      elim (Bool-cases (p t)) [
        | inl kept ↦ rw kept (ground (arith, rest))
        | inr gone ↦ rw gone rest
      ]
]

all-kept :
    (p q r : TaskExecution → Bool)
    → ((t : TaskExecution) → p t ≡ true → q t ≡ true → r t ≡ true)
    → (ts : List TaskExecution) → all q ts ≡ true
    → all r (filter p ts) ≡ true
all-kept p q r f [] h = h
all-kept p q r f (t ∷ ts) h = elim (Bool-cases (p t)) [
  | inl kept ↦ rw kept (ground (arith, f t kept, all-kept p q r f ts))
  | inr gone ↦ rw gone (all-kept p q r f ts (ground arith))
]

ended_complete :
    (i : ℕ) (names : List Text) (rows : List TaskExecution) (dep : TaskNamespace)
    → mem (to_string dep) names ≡ true
    → only_ended i (to_string dep) rows ≡ true
    → ended (collect_statuses (filter (λ t. of_pipeline i t && mem t.task_name names) rows) []) dep
      ≡ true
unfolding only_ended
ended_complete i names rows dep m h =
    shape (Dict.get (to_string dep) (collect_statuses (filter ours rows) []))
    ∙ collect-ends (to_string dep) (filter ours rows) []
        (all-kept ours
          (λ t. not (of_pipeline i t && t.task_name == to_string dep) || is_terminal t.status)
          (λ t. not (t.task_name == to_string dep) || is_terminal t.status) (λ t p q. ground arith)
          rows (ground arith))
        (any-kept ours (λ t. of_pipeline i t && t.task_name == to_string dep)
          (λ t. t.task_name == to_string dep) (λ t q. named t (ground arith) (ground arith)) rows
          (ground arith))
  where
    ours : TaskExecution → Bool
    ours t = of_pipeline i t && mem t.task_name names

    shape :
        (o : Option Status)
        → (elim o [ none ↦ false | some status ↦ is_terminal status ]) ≡ is_ended o
    shape none = refl
    shape (some s) = refl

    named :
        (t : TaskExecution)
        → of_pipeline i t ≡ true
        → (t.task_name == to_string dep) ≡ true
        → (ours t && t.task_name == to_string dep) ≡ true
    named t p q =
        let same = ap (λ n. mem n names) (==→eq t.task_name (to_string dep) q) ∙ m in
        rw (p, q, same) refl

all-ended :
    (i : ℕ) (names : List Text) (rows : List TaskExecution) (deps : List TaskNamespace)
    → All (λ d. mem (to_string d) names ≡ true) deps
    → All (λ d. only_ended i (to_string d) rows ≡ true) deps
    → all
        (ended (collect_statuses (filter (λ t. of_pipeline i t && mem t.task_name names) rows) []))
        deps
      ≡ true
all-ended i names rows [] m h = refl
all-ended i names rows (d ∷ deps) m h =
    ground (arith, ended_complete i names rows d m.0 h.0, all-ended i names rows deps m.1 h.1)

names-All :
    (deps : List TaskNamespace) → All (λ d. mem (to_string d) (map to_string deps) ≡ true) deps
names-All [] = tt
names-All (d ∷ deps) = (
  ground (arith, ==_refl (to_string d)),
  All-map deps (λ e h. ground (arith, h)) (names-All deps),
)

dependencies_ended-run :
    (i : ℕ) (deps : List TaskNamespace) (db : Db)
    → Reliable db
    → All (λ d. only_ended i (to_string d) db.tasks ≡ true) deps
    → (dependencies_ended i deps db).0 ≡ ok true
unfolding dependencies_ended get_task_statuses_batch connect gets pure ◌>>=◌ ◌>>◌
dependencies_ended-run i [] db up h = refl
dependencies_ended-run i (d ∷ deps) db up h =
    rw
      (
        up db.calls,
        all-ended i (map to_string (d ∷ deps)) db.tasks (d ∷ deps) (names-All (d ∷ deps)) h,
      )
      refl

-- The rows of the task are ready.
unfoldable pub ready_in : ℕ → List TaskExecution → Bool
ready_in id rows = all (λ t. not (t.id == id) || t.status == Status.ready) rows

ready_in-update :
    (id at : ℕ) (rows : List TaskExecution)
    → ready_in id (update_where id (set_ready at) rows) ≡ true
unfolding ready_in update_where set_ready
ready_in-update id at [] = refl
ready_in-update id at (t ∷ rows) = ground (arith, ready_in-update id at rows)

module _ (json : Json) (registry : Registry) where
  act_on-ready :
      (t : TaskExecution) (db : Db)
      → Reliable db
      → ((act_on json registry none t true db).0 ≡ ok tt)
        × (ready_in t.id (act_on json registry none t true db).1.tasks ≡ true)
  unfolding act_on mark_ready dispatch_with connect gets modify pure ◌>>=◌ ◌>>◌
  act_on-ready t db up = rw (up db.calls) (refl, ready_in-update t.id _ db.tasks)

  -- On a database that answers, a pending task whose rule is to run always is made ready by the
  -- loop's body, without an error, once each dependency that its workflow declares has rows in the
  -- pipeline and all of these are completed, failed or skipped. There is no dispatcher here.
  pub update_task_readiness-ready :
      (t : TaskExecution) (db : Db) (declared : PipelineExecution × List TaskNamespace)
      → Reliable db
      → (declared_dependencies registry t db).0 ≡ ok declared
      → All (λ d. only_ended t.pipeline_execution_id (to_string d) db.tasks ≡ true) declared.1
      → json.rule_from_json t.trigger_rules ≡ some always
      → ((update_task_readiness json registry none t db).0 ≡ ok tt)
        × (ready_in t.id (update_task_readiness json registry none t db).1.tasks ≡ true)
  unfolding update_task_readiness check_task_dependencies evaluate_trigger_rules evaluate_rule lift
      pure ◌>>=◌ SameTasks SameWorld
  update_task_readiness-ready t db declared up d e rule =
      let db1 = (declared_dependencies registry t db).1 in
      let world1 = (declared_dependencies-Keeps SameWorld-Order registry t).at db in
      let tasks1 = (declared_dependencies-Keeps SameTasks-Order registry t).at db in
      let up1 : Reliable db1 = (λ k. ap (λ (w : World). w.fault k) world1 ∙ up k) in
      let ends = dependencies_ended-run t.pipeline_execution_id declared.1 db1 up1 (
        subst
          (λ rows.
            All (λ d. only_ended t.pipeline_execution_id (to_string d) rows ≡ true) declared.1)
          (sym tasks1) e) in
      let world2 =
        (dependencies_ended-Keeps SameWorld-Order json registry t.pipeline_execution_id
            declared.1).at
          db1 in
      rw (d, ends, rule)
        (act_on-ready t (dependencies_ended t.pipeline_execution_id declared.1 db1).1
          (λ k. ap (λ (w : World). w.fault k) world2 ∙ up1 k))
