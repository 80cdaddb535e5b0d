-- ===== src/Dispatcher/Scheduling.antt =====
-- The rows of a dispatched task, and a retry that the executor answers.
use cloacina.Common.{
  ℕ, ◌+◌, ◌≡◌, refl, ap, ◌∙◌, Bool, true, false, not, ◌&&◌, ◌||◌, List, [], ◌∷◌, all, Option, none,
  some, Text, Result, ok, err, arith, ◌==◌, nat_eq, text_eq, Bool-cases, inl, inr,
}
use cloacina.Common.Dict.{is_some}
use cloacina.Context.{Context}
use cloacina.Namespace
use cloacina.Namespace.{TaskNamespace}
use cloacina.Store.Rows.{TaskExecution, Status, status_eq}
use cloacina.Store.Monad.{
  M, Db, ValidationError, pure, gets, modify, connect, attempt_of, ◌>>=◌, ◌>>◌,
}
use cloacina.Store.Keeps.{Order, Keeps, Keeps-then, Keeps-bind, Keeps-connect, Keeps-gets}
use cloacina.Store.Tasks
use cloacina.Store.Tasks.{update_where, set_completed, set_failed, set_retry, stamp}
use cloacina.Errors.{ExecutorError}
use cloacina.Scheduler.Abandonment.{Reliable}
use cloacina.Scheduler.State.{TaskReadyEvent}
use cloacina.Executor.Values.{Value}
use cloacina.Executor.Contexts.{build_task_context}
use cloacina.Executor.Outcomes.{ExecutionResult, ExecutionStatus}
use cloacina.Executor.Retries.{should_retry_task}
use cloacina.Executor.Threads.{
  ThreadTaskExecutor, Surroundings, enter, leave, execute_with_timeout, schedule_task_retry, saved,
  conclude, with_context, with_task, in_namespace, execute,
}
use cloacina.Executor.Writes.{build_task_context-Keeps, execute-Keeps}
use cloacina.Dispatcher.{or_unknown}

unfoldable pub SameWorld : Db → Db → Type 0
SameWorld a b = b.world ≡ a.world

SameWorld-Order : Order SameWorld
unfolding SameWorld connect
SameWorld-Order = record { same = λ db. refl; trans = λ p q. q ∙ p; after_connect = λ db. refl }

pub Reliable-SameWorld : (a b : Db) → SameWorld a b → Reliable a → Reliable b
unfolding SameWorld
Reliable-SameWorld a b same up k = ap (λ w. w.fault k) same ∙ up k

stamp-SameWorld : (id : ℕ) (f : ℕ → TaskExecution → TaskExecution) → Keeps SameWorld (stamp id f)
unfolding SameWorld modify
stamp-SameWorld id f =
    let o = SameWorld-Order in
    Keeps-then o (Keeps-connect o)
      (Keeps-bind o (Keeps-gets o _) (λ at. record { at = λ db. refl }))

abbrev told : Text → Option Text → Bool
told message none = false
told message (some text) = text == message

-- The row of a task whose run ended with the status: completed, failed with the error's text, or
-- ready for one more attempt at a time that is set.
abbrev pub settled_as : TaskReadyEvent → Option Text → ExecutionStatus → TaskExecution → Bool
settled_as event error ExecutionStatus.completed t = t.status == Status.completed
settled_as event error ExecutionStatus.failed t =
    t.status == Status.failed && told (or_unknown error) t.last_error
settled_as event error ExecutionStatus.retry t =
    t.status == Status.ready && t.attempt == event.attempt + 1 && is_some t.retry_at

-- Each row of the task is settled.
abbrev pub settled : TaskReadyEvent → ExecutionResult → List TaskExecution → Bool
settled event result rows =
    all
      (λ t. not (t.id == event.task_execution_id) || settled_as event result.error result.status t)
      rows

pub all-update_where :
    (id : ℕ) (p : TaskExecution → Bool) (f : TaskExecution → TaskExecution)
    (rows : List TaskExecution)
    → ((t : TaskExecution) → p (f t) ≡ true)
    → all (λ t. not (t.id == id) || p t) (update_where id f rows) ≡ true
unfolding update_where
all-update_where id p f [] h = refl
all-update_where id p f (t ∷ rows) h = ground (arith, h t, all-update_where id p f rows h)

pub stamp-settles :
    (id : ℕ) (p : TaskExecution → Bool) (f : ℕ → TaskExecution → TaskExecution) (db : Db)
    → Reliable db
    → ((at : ℕ) (t : TaskExecution) → p (f at t) ≡ true)
    → ((stamp id f db).0 ≡ ok tt)
      × (all (λ t. not (t.id == id) || p t) (stamp id f db).1.tasks ≡ true)
unfolding connect gets modify ◌>>=◌ ◌>>◌
stamp-settles id p f db up h = rw (up db.calls) (refl, all-update_where id p (f _) db.tasks (h _))

-- A run of the executor that answers a retry has scheduled it.
abbrev pub Retried :
    TaskReadyEvent → Result ValidationError (ExecutionResult × ThreadTaskExecutor) → Db → Type 0
Retried event (err e) db = Unit {0}
Retried event (ok (result, ex)) db =
    result.status ≡ ExecutionStatus.retry → settled event result db.tasks ≡ true

abbrev pub Schedules : TaskReadyEvent → M (ExecutionResult × ThreadTaskExecutor) → Type 0
Schedules event m = (db : Db) → Reliable db → Retried event (m db).0 (m db).1

module _ (s : Surroundings) (event : TaskReadyEvent) where
  saved-Schedules :
      (ex : ThreadTaskExecutor) (r : Result ValidationError (Unit {0})) (db : Db)
      → Retried event (saved s ex event r db).0 (saved s ex event r db).1
  unfolding saved pure
  saved-Schedules ex (ok u) db = λ e. absurd (cc)
  saved-Schedules ex (err x) db = λ e. absurd (cc)

  conclude-Schedules :
      (ex : ThreadTaskExecutor) (task : s.tasks.Code) (r : Result ExecutorError (Context Value))
      → Schedules event (conclude s ex event task r)
  unfolding conclude schedule_task_retry Tasks.schedule_retry set_retry attempt_of connect gets
      modify pure ◌>>=◌ ◌>>◌
  conclude-Schedules ex task (ok context) db up = saved-Schedules ex _ _
  conclude-Schedules ex task (err error) db up =
      elim (Bool-cases
        (should_retry_task s.printing event.attempt error (s.tasks.retry_policy task))) [
          | inl again ↦
              rw (again, up db.calls)
                (λ _.
                  all-update_where event.task_execution_id
                    (settled_as event none ExecutionStatus.retry) _ db.tasks (λ t. ground arith))
          | inr over ↦ rw over (λ e. absurd (cc))
        ]

  with_context-Schedules :
      (ex : ThreadTaskExecutor) (task : s.tasks.Code) (r : Result ValidationError (Context Value))
      → Schedules event (with_context s ex event task r)
  unfolding with_context execute_with_timeout gets ◌>>=◌ pure
  with_context-Schedules ex task (ok context) db up = conclude-Schedules (leave ex) task _ db up
  with_context-Schedules ex task (err e) db up = λ x. absurd (cc)

  with_task-Schedules :
      (ex : ThreadTaskExecutor) (task : Option s.tasks.Code)
      → Schedules event (with_task s ex event task)
  unfolding with_task pure attempt_of ◌>>=◌
  with_task-Schedules ex none db up = λ x. absurd (cc)
  with_task-Schedules ex (some task) db up =
      let build = build_task_context s.parser event (s.tasks.dependencies task) in
      with_context-Schedules ex task (build db).0 (build db).1 (
        Reliable-SameWorld db (build db).1
          ((build_task_context-Keeps SameWorld-Order s.parser event _).at db) up)

  in_namespace-Schedules :
      (ex : ThreadTaskExecutor) (r : Result Text TaskNamespace)
      → Schedules event (in_namespace s ex event r)
  unfolding in_namespace pure
  in_namespace-Schedules ex (ok ns) db up = with_task-Schedules ex _ db up
  in_namespace-Schedules ex (err e) db up = λ x. absurd (cc)

  pub execute-Schedules : (ex : ThreadTaskExecutor) → Schedules event (execute s ex event)
  unfolding execute
  execute-Schedules ex =
      in_namespace-Schedules (enter ex) (Namespace.parse_namespace event.task_name)

  pub execute-SameWorld : (ex : ThreadTaskExecutor) → Keeps SameWorld (execute s ex event)
  unfolding SameWorld Tasks.mark_completed Tasks.schedule_retry
  execute-SameWorld ex =
      execute-Keeps SameWorld-Order s event
        (record {
          context = λ f db. refl;
          output = λ f db. refl;
          completes = stamp-SameWorld _ set_completed;
          retries = λ task error again at. stamp-SameWorld _ (set_retry at _);
        })
        ex
