-- ===== src/Scheduler/Scheduling.antt =====
-- The start of an execution: all its rows or none.
use cloacina.Common.{
  ℕ, ◌≡◌, refl, ap, ◌∙◌, sym, subst, List, [], ◌∷◌, ◌++◌, map, Option, none, some, Text, text_eq,
  Result, ok, err, ok-injective, ◌⊎◌, inl, inr,
}
use cloacina.Namespace.{TaskNamespace, to_string}
use cloacina.Context.{Context}
use cloacina.Store.Rows.{TaskExecution, PipelineExecution, Status}
use cloacina.Store.Monad.{
  M, Db, ValidationError, and_then, ◌>>=◌, ◌>>◌, connect, now, new_v4, modify, pure, lift,
}
use cloacina.Store.Keeps.{
  Order, Keeps, Keeps-pure, Keeps-lift, Keeps-gets, Keeps-bind, Keeps-then, Keeps-attempt,
  Keeps-connect, Keeps-if,
}
use cloacina.Store.Runs.{>>=-ok, pure-ok}
use cloacina.Store.Tasks.{new_row}
use cloacina.Store.Pipelines
use cloacina.Workflow.Graph.{Petgraph}
use cloacina.Workflow.Tasks
use cloacina.Workflow.Tasks.{Workflow}
use cloacina.Scheduler.Contexts.{Registry, workflow_in}
use cloacina.Scheduler.Schedule.{
  Serde, insert_context, create_value, create_context, TaskData, task_data, new_rows,
  pending_pipeline, create_pipeline, start_pipeline, schedule_workflow_execution,
}

-- The tables of pipelines and of tasks stay as they are.
unfoldable pub SameTables : Db → Db → Type 0
SameTables a b = (b.pipelines ≡ a.pipelines) × (b.tasks ≡ a.tasks)

SameTables-Order : Order SameTables
unfolding SameTables connect
SameTables-Order = record {
  same = λ db. (refl, refl);
  trans = λ p q. (q.0 ∙ p.0, q.1 ∙ p.1);
  after_connect = λ db. (refl, refl);
}

new_v4-SameTables : Keeps SameTables new_v4
unfolding new_v4 SameTables
new_v4-SameTables = record { at = λ db. (refl, refl) }

get_last_version-SameTables : (name : Text) → Keeps SameTables (Pipelines.get_last_version name)
unfolding Pipelines.get_last_version
get_last_version-SameTables name =
    let o = SameTables-Order in
    Keeps-then o (Keeps-connect o) (Keeps-bind o (Keeps-gets o _) (λ latest. Keeps-pure o _))

insert_context-SameTables : (value : Text) → Keeps SameTables (insert_context value)
unfolding insert_context modify SameTables
insert_context-SameTables value =
    let o = SameTables-Order in
    Keeps-then o (Keeps-connect o) (
      Keeps-bind o new_v4-SameTables
        (λ id. Keeps-then o (record { at = λ db. (refl, refl) }) (Keeps-pure o _)))

then_pure-err :
    (m : M Unit) (id : ℕ) (db : Db) {e : ValidationError}
    → (m db).0 ≡ err e
    → (m >> pure id) db ≡ (err e, (m db).1)
unfolding ◌>>◌ ◌>>=◌ pure
then_pure-err m id db h =
    ap (λ (r : Result ValidationError Unit). and_then r (λ _. pure id) (m db).1) h

then_pure-ok :
    (m : M Unit) (id : ℕ) (db : Db) → (m db).0 ≡ ok tt → (m >> pure id) db ≡ (ok id, (m db).1)
unfolding ◌>>◌ ◌>>=◌ pure
then_pure-ok m id db h =
    ap (λ (r : Result ValidationError Unit). and_then r (λ _. pure id) (m db).1) h

module _ {Value : Type 0} (serde : Serde Value) where
  create_value-SameTables : (v : Option Text) → Keeps SameTables (create_value serde v)
  unfolding create_value
  create_value-SameTables none = Keeps-lift SameTables-Order _
  create_value-SameTables (some v) =
      Keeps-if _ (Keeps-pure SameTables-Order none) (insert_context-SameTables v)

  create_context-SameTables : (c : Context Value) → Keeps SameTables (create_context serde c)
  unfolding create_context
  create_context-SameTables c =
      let o = SameTables-Order in
      Keeps-bind o (Keeps-attempt o (create_value-SameTables _)) (λ r. Keeps-lift o _)

  new_rows-SameTables :
      (id at : ℕ) (ds : List (TaskData serde)) → Keeps SameTables (new_rows serde id at ds)
  unfolding new_rows
  new_rows-SameTables id at [] = Keeps-pure SameTables-Order []
  new_rows-SameTables id at (d ∷ ds) =
      let o = SameTables-Order in
      Keeps-bind o new_v4-SameTables
        (λ i. Keeps-bind o (new_rows-SameTables id at ds) (λ rows. Keeps-pure o _))

  -- A row of the execution that waits to be scheduled, under the name of the task.
  abbrev pub Waiting : ℕ → TaskNamespace → TaskExecution → Type 0
  Waiting pipeline_id ns t =
      (t.task_name ≡ to_string ns)
      × (t.pipeline_execution_id ≡ pipeline_id)
      × (t.status ≡ Status.not_started)
      × (t.attempt ≡ 1)
      × (t.recovery_attempts ≡ 0)

  -- A row for each task, in the order of the tasks.
  abbrev pub AllWaiting : ℕ → List TaskNamespace → List TaskExecution → Type 0
  AllWaiting pipeline_id [] [] = Unit
  AllWaiting pipeline_id (ns ∷ order) (t ∷ rows) =
      Waiting pipeline_id ns t × AllWaiting pipeline_id order rows
  AllWaiting pipeline_id _ _ = ⊥

  new_rows-AllWaiting :
      (workflow : Workflow) (id at : ℕ) (order : List TaskNamespace) (db : Db)
      {rows : List TaskExecution}
      → (new_rows serde id at (map (task_data serde workflow) order) db).0 ≡ ok rows
      → AllWaiting id order rows
  unfolding new_rows new_row
  new_rows-AllWaiting workflow id at [] db h = subst (AllWaiting id []) (pure-ok _ _ h) tt
  new_rows-AllWaiting workflow id at (ns ∷ order) db h =
      let draw = >>=-ok new_v4 _ db h in
      let rest = >>=-ok (new_rows serde id at (map (task_data serde workflow) order)) _ _ draw.2 in
      subst (AllWaiting id (ns ∷ order)) (pure-ok _ _ rest.2)
        ((refl, refl, refl, refl, refl), new_rows-AllWaiting workflow id at order _ rest.1)

  -- What the start of an execution of a workflow may lead to: an error and the tables as they were,
  -- or the new pipeline, pending, and a waiting row for each task at the ends of the tables.
  pub data Outcome (workflow : Workflow) (name : Text) (order : List TaskNamespace) (db : Db)
      : Result ValidationError ℕ × Db → Type 0 where
    refused :
        {o : Result ValidationError ℕ × Db} (e : ValidationError)
        → o.0 ≡ err e
        → SameTables db o.1
        → Outcome workflow name order db o
    started :
        {o : Result ValidationError ℕ × Db} (id at : ℕ) (context_id : Option ℕ)
        (rows : List TaskExecution)
        → o.0 ≡ ok id
        → o.1.pipelines
          ≡ db.pipelines
            ++ pending_pipeline serde id at name workflow.metadata.version context_id ∷ []
        → o.1.tasks ≡ db.tasks ++ rows
        → AllWaiting id order rows
        → Outcome workflow name order db o

  Outcome-same :
      (w : Workflow) (name : Text) (order : List TaskNamespace) (a b : Db)
      (o : Result ValidationError ℕ × Db)
      → SameTables a b
      → Outcome w name order b o
      → Outcome w name order a o
  unfolding SameTables
  Outcome-same w name order a b o s (refused e h t) = refused e h (t.0 ∙ s.0, t.1 ∙ s.1)
  Outcome-same w name order a b o s (started id at c rows h p t r) =
      started id at c rows h
        (p ∙ ap (λ ps. ps ++ pending_pipeline serde id at name w.metadata.version c ∷ []) s.0)
        (t ∙ ap (λ ts. ts ++ rows) s.1) r

  -- A first part that keeps the tables.
  Outcome-bind :
      (w : Workflow) (name : Text) (order : List TaskNamespace) {A : Type 0} (m : M A) (f : A → M ℕ)
      (db : Db)
      → Keeps SameTables m
      → ((a : A) (db' : Db) → (m db).0 ≡ ok a → Outcome w name order db' (f a db'))
      → Outcome w name order db ((m >>= f) db)
  unfolding ◌>>=◌
  Outcome-bind w name order {A} m f db k next = go (m db).0 refl
    where
      go :
          (r : Result ValidationError A)
          → (m db).0 ≡ r
          → Outcome w name order db (and_then r f (m db).1)
      go (err e) h = refused e refl (k.at db)
      go (ok a) h = Outcome-same w name order db (m db).1 _ (k.at db) (next a (m db).1 h)

  -- The two ends of the transaction.
  abbrev Inserted :
      ℕ → List TaskNamespace → PipelineExecution → Db → Result ValidationError Unit × Db → Type 0
  Inserted id order pipeline db o =
      ((e : ValidationError) × (o.0 ≡ err e) × SameTables db o.1)
      ⊎ ((rows : List TaskExecution) × (o.0 ≡ ok tt)
          × (o.1.pipelines ≡ db.pipelines ++ pipeline ∷ [])
          × (o.1.tasks ≡ db.tasks ++ rows)
          × AllWaiting id order rows)

  create_pipeline-Inserted :
      (w : Workflow) (name : Text) (order : List TaskNamespace) (c : Option ℕ) (id at : ℕ) (db : Db)
      → Inserted id order
          (pending_pipeline serde id at name w.metadata.version c)
          db
          (create_pipeline serde id at name w.metadata.version c (map (task_data serde w) order) db)
  unfolding create_pipeline ◌>>=◌ ◌>>◌ modify SameTables
  create_pipeline-Inserted w name order c id at db =
      connected (connect db).0 (drawn (make (connect db).1).0 refl)
    where
      make : M (List TaskExecution)
      make = new_rows serde id at (map (task_data serde w) order)

      pipeline : PipelineExecution
      pipeline = pending_pipeline serde id at name w.metadata.version c

      reached : SameTables db (connect db).1
      reached = SameTables-Order.after_connect db

      kept : SameTables (connect db).1 (make (connect db).1).1
      kept = (new_rows-SameTables id at (map (task_data serde w) order)).at (connect db).1

      insert : List TaskExecution → M Unit
      insert rows =
          modify (λ db. record db {
            pipelines = db.pipelines ++ pipeline ∷ [];
            tasks = db.tasks ++ rows;
          })

      drawn :
          (r : Result ValidationError (List TaskExecution))
          → (make (connect db).1).0 ≡ r
          → Inserted id order pipeline db (and_then r insert (make (connect db).1).1)
      drawn (err e) h = inl (e, refl, (kept.0 ∙ reached.0, kept.1 ∙ reached.1))
      drawn (ok rows) h = inr (
        rows,
        refl,
        ap (λ ps. ps ++ pipeline ∷ []) (kept.0 ∙ reached.0),
        ap (λ ts. ts ++ rows) (kept.1 ∙ reached.1),
        new_rows-AllWaiting w id at order (connect db).1 h,
      )

      connected :
          (r : Result ValidationError Unit)
          → Inserted id order pipeline db ((make >>= insert) (connect db).1)
          → Inserted id order pipeline db (and_then r (λ _. make >>= insert) (connect db).1)
      connected (err e) next = inl (e, refl, reached)
      connected (ok _) next = next

  module _ (petgraph : Petgraph) (registry : Registry) where
    start_pipeline-Outcome :
        (w : Workflow) (name : Text) (order : List TaskNamespace) (c : Option ℕ) (db : Db)
        → Outcome w name order db (start_pipeline serde petgraph registry name w c order db)
    unfolding start_pipeline
    start_pipeline-Outcome w name order c db =
        let o = SameTables-Order in
        Outcome-bind w name order new_v4 _ db new_v4-SameTables (λ id db' _.
          Outcome-bind w name order now _ db' (Keeps-gets o _) (λ at db'' _.
            answer w name order c id at db'' (create_pipeline-Inserted w name order c id at db'')))
      where
        create : Workflow → Text → List TaskNamespace → Option ℕ → ℕ → ℕ → M Unit
        create w name order c id at =
            create_pipeline serde id at name w.metadata.version c (map (task_data serde w) order)

        answer :
            (w : Workflow) (name : Text) (order : List TaskNamespace) (c : Option ℕ) (id at : ℕ)
            (db : Db)
            → Inserted id order
                (pending_pipeline serde id at name w.metadata.version c)
                db
                (create w name order c id at db)
            → Outcome w name order db ((create w name order c id at >> pure id) db)
        answer w name order c id at db (inl (e, h, t)) =
            subst (Outcome w name order db) (sym (then_pure-err _ id db h)) (refused e refl t)
        answer w name order c id at db (inr (rows, h, p, t, r)) =
            subst (Outcome w name order db) (sym (then_pure-ok _ id db h))
              (started id at c rows refl p t r)

    -- The start of an execution is atomic, whichever calls to the database fail and whatever the
    -- context is: for a workflow of the registry and its topological order, it ends with an error
    -- and the tables of pipelines and tasks as they were, or with the identifier of a new pipeline
    -- that is pending and, for each task in that order, one row that is not started, in its first
    -- attempt, never recovered, and under the task's full name.
    pub schedule_workflow_execution-Outcome :
        (name : Text) (input : Context Value) (workflow : Workflow) (order : List TaskNamespace)
        (db : Db)
        → workflow_in registry name ≡ ok workflow
        → Tasks.topological_sort petgraph workflow ≡ ok order
        → Outcome workflow name order db
            (schedule_workflow_execution serde petgraph registry name input db)
    unfolding schedule_workflow_execution lift
    schedule_workflow_execution-Outcome name input workflow order db found sorted =
        let o = SameTables-Order in
        Outcome-bind workflow name order (lift (workflow_in registry name)) _ db (Keeps-lift o _)
          (λ w db1 e1.
            Outcome-bind workflow name order (Pipelines.get_last_version name) _ db1
              (get_last_version-SameTables name)
              (λ v db2 _.
                Outcome-bind workflow name order (create_context serde input) _ db2
                  (create_context-SameTables input)
                  (λ c db3 _.
                    Outcome-bind workflow name order (lift (Tasks.topological_sort petgraph w)) _
                      db3 (Keeps-lift o _)
                      (λ ids db4 e2.
                        let same = ok-injective (sym found ∙ e1) in
                        let ordered =
                          ok-injective
                            (sym sorted ∙ ap (Tasks.topological_sort petgraph) same ∙ e2) in
                        subst
                          (λ x.
                            Outcome workflow name order db4
                              (start_pipeline serde petgraph registry name x c ids db4))
                          same
                          (subst
                            (λ y.
                              Outcome workflow name order db4
                                (start_pipeline serde petgraph registry name workflow c y db4))
                            ordered (start_pipeline-Outcome workflow name order c db4))))))
