-- ===== src/Store/Frame.antt =====
-- The rows that a run does not touch: a preorder for each set of ids, and the single updates.
use cloacina.Common.{
  ℕ, ◌≡◌, refl, ap, ◌∙◌, List, [], ◌∷◌, Text, true, not, filter, mem, arith, nat_eq,
}
use cloacina.Store.Rows.{TaskExecution}
use cloacina.Store.Monad.{M, Db, connect, modify}
use cloacina.Store.Keeps.{Order, Keeps, Keeps-then, Keeps-bind, Keeps-connect, Keeps-gets}
use cloacina.Store.Tasks.{
  update_where, update_task, set_ready, set_skipped, set_abandoned, set_recovered, set_completed,
  set_failed, mark_ready, mark_skipped, mark_abandoned, mark_completed, mark_failed,
  reset_task_for_recovery, schedule_retry, set_retry, stamp,
}

-- The rows whose id is none of `ids`, in the order of the table.
abbrev pub others : List ℕ → List TaskExecution → List TaskExecution
others ids rows = filter (λ t. not (mem t.id ids)) rows

unfoldable pub Untouched : List ℕ → Db → Db → Type 0
Untouched ids a b = others ids b.tasks ≡ others ids a.tasks

unfoldable pub SameTasks : Db → Db → Type 0
SameTasks a b = b.tasks ≡ a.tasks

pub Untouched-Order : (ids : List ℕ) → Order (Untouched ids)
unfolding Untouched connect
Untouched-Order ids = record { same = λ db. refl; trans = λ p q. q ∙ p; after_connect = λ db. refl }

pub SameTasks-Order : Order SameTasks
unfolding SameTasks connect
SameTasks-Order = record { same = λ db. refl; trans = λ p q. q ∙ p; after_connect = λ db. refl }

pub SameTasks-Untouched :
    {A : Type 0} (ids : List ℕ) {m : M A} → Keeps SameTasks m → Keeps (Untouched ids) m
unfolding SameTasks Untouched
SameTasks-Untouched ids k = record { at = λ db. ap (others ids) (k.at db) }

others-update_where :
    (ids : List ℕ) (id : ℕ) (f : TaskExecution → TaskExecution) (rows : List TaskExecution)
    → mem id ids ≡ true
    → ((t : TaskExecution) → (f t).id ≡ t.id)
    → others ids (update_where id f rows) ≡ others ids rows
unfolding update_where
others-update_where ids id f [] m same = refl
others-update_where ids id f (t ∷ rows) m same =
    ground (arith, same t, others-update_where ids id f rows m same, ap (λ i. mem i ids) (same t))

module _ (ids : List ℕ) (id : ℕ) (m : mem id ids ≡ true) where
  abbrev o : Order (Untouched ids)
  o = Untouched-Order ids

  update_task-Untouched :
      (f : TaskExecution → TaskExecution)
      → ((t : TaskExecution) → (f t).id ≡ t.id)
      → Keeps (Untouched ids) (update_task id f)
  unfolding Untouched modify
  update_task-Untouched f same = record { at = λ db. others-update_where ids id f db.tasks m same }

  stamp-Untouched :
      (f : ℕ → TaskExecution → TaskExecution)
      → ((at : ℕ) (t : TaskExecution) → (f at t).id ≡ t.id)
      → Keeps (Untouched ids) (stamp id f)
  stamp-Untouched f same =
      Keeps-then o (Keeps-connect o)
        (Keeps-bind o (Keeps-gets o _) (λ at. update_task-Untouched (f at) (same at)))

  pub mark_ready-Untouched : Keeps (Untouched ids) (mark_ready id)
  unfolding mark_ready set_ready
  mark_ready-Untouched = stamp-Untouched set_ready (λ at t. refl)

  pub mark_skipped-Untouched : (reason : Text) → Keeps (Untouched ids) (mark_skipped id reason)
  unfolding mark_skipped set_skipped
  mark_skipped-Untouched reason = stamp-Untouched (set_skipped reason) (λ at t. refl)

  pub mark_abandoned-Untouched : (reason : Text) → Keeps (Untouched ids) (mark_abandoned id reason)
  unfolding mark_abandoned set_abandoned
  mark_abandoned-Untouched reason = stamp-Untouched (set_abandoned reason) (λ at t. refl)

  pub reset_task-Untouched : Keeps (Untouched ids) (reset_task_for_recovery id)
  unfolding reset_task_for_recovery set_recovered
  reset_task-Untouched = stamp-Untouched set_recovered (λ at t. refl)

  pub mark_completed-Untouched : Keeps (Untouched ids) (mark_completed id)
  unfolding mark_completed set_completed
  mark_completed-Untouched = stamp-Untouched set_completed (λ at t. refl)

  pub mark_failed-Untouched : (e : Text) → Keeps (Untouched ids) (mark_failed id e)
  unfolding mark_failed set_failed
  mark_failed-Untouched e = stamp-Untouched (set_failed e) (λ at t. refl)

  pub schedule_retry-Untouched : (r n : ℕ) → Keeps (Untouched ids) (schedule_retry id r n)
  unfolding schedule_retry set_retry
  schedule_retry-Untouched r n = stamp-Untouched (set_retry r n) (λ at t. refl)
