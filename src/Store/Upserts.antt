-- ===== src/Store/Upserts.antt =====
-- The upsert of a task's output, in PostgreSQL and in SQLite.
use cloacina.Common.{
  ℕ, suc, ◌≡◌, refl, sym, ap, ◌∙◌, Bool, Result, true, false, List, [], ◌∷◌, ◌++◌, Option, none,
  some, ok, err, ◌==◌, nat_eq, if◌then◌else◌, arith, Bool-cases, inl, inr, ◌⊎◌, ==→eq, ==_refl,
}
use cloacina.Store.Rows.{TaskExecutionMetadata}
use cloacina.Store.Monad.{
  Db, BackendType, ValidationError, connect, statement, write_if, new_v4, gets, pure, ◌>>=◌, ◌>>◌,
  connection_pool, database,
}
use cloacina.Store.Queries.{found}
use cloacina.Store.Metadata.{
  find_by_task, set_context_where, put_row, insert_or_update, upsert_found, upsert_in,
  context_exists, insert_allowed, upsert_allowed, upsert_task_execution_metadata,
}

-- What a look-up finds after the upsert: the new output under the id of its task.
abbrev pub with_output :
    TaskExecutionMetadata → Option TaskExecutionMetadata → TaskExecutionMetadata
with_output m none = m
with_output m (some old) = record old { context_id = m.context_id }

find-append :
    (j : ℕ) (m : TaskExecutionMetadata) (rows : List TaskExecutionMetadata)
    → find_by_task m.task_execution_id rows ≡ none
    → find_by_task j (rows ++ m ∷ [])
      ≡ (if m.task_execution_id == j then some m else find_by_task j rows)
unfolding find_by_task
find-append j m [] h = refl
find-append j m (r ∷ rows) h = ground (arith, find-append j m rows)

abbrev with_context : Option ℕ → Option TaskExecutionMetadata → Option TaskExecutionMetadata
with_context c none = none
with_context c (some m) = some (record m { context_id = c })

find-set_context :
    (i j : ℕ) (c : Option ℕ) (rows : List TaskExecutionMetadata)
    → find_by_task j (set_context_where i c rows)
      ≡ (if i == j then with_context c (find_by_task j rows) else find_by_task j rows)
unfolding find_by_task set_context_where
find-set_context i j c [] = ground arith
find-set_context i j c (r ∷ rows) = ground (arith, find-set_context i j c rows)

-- A row is found under its id only.
find-id :
    (i : ℕ) (rows : List TaskExecutionMetadata) (m : TaskExecutionMetadata)
    → find_by_task i rows ≡ some m
    → m.task_execution_id ≡ i
unfolding find_by_task
find-id i [] m h = absurd (cc)
find-id i (r ∷ rows) m h = ground (arith, find-id i rows m)

find-put_row :
    (j : ℕ) (m : TaskExecutionMetadata) (rows : List TaskExecutionMetadata)
    (old : Option TaskExecutionMetadata)
    → find_by_task m.task_execution_id rows ≡ old
    → find_by_task j (put_row m rows old)
      ≡ (if m.task_execution_id == j then some (with_output m old) else find_by_task j rows)
find-put_row j m rows none h = find-append j m rows h
find-put_row j m rows (some old) h =
    find-set_context m.task_execution_id j m.context_id rows
    ∙ elim (Bool-cases (m.task_execution_id == j)) [
      | inl same ↦
          let eq : m.task_execution_id ≡ j = ==→eq m.task_execution_id j same in
          rw (same, ← eq, h) refl
      | inr other ↦ rw other refl
    ]

-- Some call or statement is not answered.
abbrev pub Faulty : Db → Type 0
Faulty db = (k : ℕ) × (db.world.fault k ≡ true)

-- The table is as it was, since the keys refuse the row or a statement is not answered.
abbrev pub Refused : Bool → Db → Result ValidationError (Unit {0}) × Db → Type 0
Refused allowed db r =
    (e : ValidationError) × (r.0 ≡ err e)
    × (r.1.metadata ≡ db.metadata)
    × ((allowed ≡ false) ⊎ Faulty db)

abbrev Wrote :
    Bool
    → (List TaskExecutionMetadata → List TaskExecutionMetadata)
    → Db
    → Result ValidationError (Unit {0}) × Db
    → Type 0
Wrote allowed f db r =
    ((r.0 ≡ ok tt) × (r.1.metadata ≡ f db.metadata) × (r.1.world ≡ db.world) × (allowed ≡ true))
    ⊎ Refused allowed db r

-- One statement that writes.
write-cases :
    (allowed : Db → Bool) (f : List TaskExecutionMetadata → List TaskExecutionMetadata) (db : Db)
    → Wrote
        (allowed (record db { calls = suc db.calls }))
        f
        db
        ((statement >> write_if allowed (λ d. record d { metadata = f d.metadata })) db)
unfolding connect write_if ◌>>=◌ ◌>>◌
write-cases allowed f db = elim (Bool-cases (db.world.fault db.calls)) [
  | inl down ↦ inr (connection_pool, rw down refl, rw down refl, inr (db.calls, down))
  | inr up ↦ elim (Bool-cases (allowed (record db { calls = suc db.calls }))) [
    | inl granted ↦
        inl (rw (up, granted) refl, rw (up, granted) refl, rw (up, granted) refl, granted)
    | inr denied ↦ inr (database, rw (up, denied) refl, rw (up, denied) refl, inl denied)
  ]
]

upsert_found-cases :
    (m : TaskExecutionMetadata) (old : Option TaskExecutionMetadata) (db : Db)
    → Wrote (upsert_allowed m old db) (λ rows. put_row m rows old) db (upsert_found old m db)
unfolding upsert_found new_v4 ◌>>=◌
upsert_found-cases m none db =
    write-cases (insert_allowed m) (λ rows. rows ++ m ∷ []) (record db { calls = suc db.calls })
upsert_found-cases m (some old) db = write-cases (λ d. context_exists m.context_id d.contexts) _ db

abbrev old_of : TaskExecutionMetadata → Db → Option TaskExecutionMetadata
old_of m db = find_by_task m.task_execution_id db.metadata

upsert_in-cases :
    (b : BackendType) (m : TaskExecutionMetadata) (db : Db)
    → Wrote (upsert_allowed m (old_of m db) db) (insert_or_update m) db (upsert_in b m db)
unfolding upsert_in insert_or_update new_v4 connect gets ◌>>=◌ ◌>>◌
upsert_in-cases BackendType.postgres m db =
    write-cases (λ d. upsert_allowed m (old_of m d) d)
      (λ rows. put_row m rows (find_by_task m.task_execution_id rows))
      (record db { calls = suc db.calls })
upsert_in-cases BackendType.sqlite m db = elim (Bool-cases (db.world.fault db.calls)) [
  | inl down ↦ inr (connection_pool, rw down refl, rw down refl, inr (db.calls, down))
  | inr up ↦ rw up (upsert_found-cases m (old_of m db) (record db { calls = suc db.calls }))
]

-- The task's row carries the new output and is otherwise as it was, and so is each other row.
abbrev pub Upserted :
    TaskExecutionMetadata → List TaskExecutionMetadata → List TaskExecutionMetadata → Type 0
Upserted m before after =
    (j : ℕ)
    → find_by_task j after ≡ (
        if m.task_execution_id == j
        then some (with_output m (find_by_task m.task_execution_id before))
        else find_by_task j before)

abbrev pub Outcome :
    TaskExecutionMetadata → Db → Result ValidationError TaskExecutionMetadata × Db → Type 0
Outcome m db after =
    ((after.0 ≡ ok (with_output m (old_of m db)))
      × Upserted m db.metadata after.1.metadata
      × (upsert_allowed m (old_of m db) db ≡ true))
    ⊎ (((e : ValidationError) × (after.0 ≡ err e)
          × (after.1.metadata ≡ db.metadata)
          × ((upsert_allowed m (old_of m db) db ≡ false) ⊎ Faulty db))
        ⊎ ((e : ValidationError) × (after.0 ≡ err e)
            × Upserted m db.metadata after.1.metadata
            × Faulty db))

-- The read after a write.
read-Outcome :
    (m : TaskExecutionMetadata) (db after : Db)
    → Upserted m db.metadata after.metadata
    → after.world ≡ db.world
    → upsert_allowed m (old_of m db) db ≡ true
    → Outcome m db ((statement >> (gets (λ d. old_of m d) >>= found)) after)
unfolding connect gets found pure ◌>>=◌ ◌>>◌
read-Outcome m db after written same allowed = elim (Bool-cases (after.world.fault after.calls)) [
  | inl down ↦ inr (
      inr (
        connection_pool,
        rw down refl,
        rw down written,
        (after.calls, ap (λ w. w.fault after.calls) (sym same) ∙ down),
      ))
  | inr up ↦
      let there : find_by_task m.task_execution_id after.metadata
          ≡ some (with_output m (old_of m db)) =
        rw (==_refl m.task_execution_id) at (written m.task_execution_id) in
      inl (rw (up, there) refl, rw (up, there) written, allowed)
]

-- On either backend the upsert of an output has one of three outcomes. It answers the task's row:
-- then the keys of the table allow it, the row carries the new output, the pipeline and the name of
-- a row that was there already stay, and a look-up under any other task finds what it found before.
-- Or it fails and changes no row: then the keys of the table refuse it or some call or statement is
-- not answered. Or it fails after the row was written as in the first case: then some statement is
-- not answered. Rows are compared in the columns that are modelled, which are all but the row's own
-- id and its two times.
pub upsert_lem :
    (m : TaskExecutionMetadata) (db : Db) → Outcome m db (upsert_task_execution_metadata m db)
unfolding upsert_task_execution_metadata insert_or_update connect gets ◌>>=◌ ◌>>◌
upsert_lem m db = elim (Bool-cases (db.world.fault db.calls)) [
  | inl down ↦ inr (inl (connection_pool, rw down refl, rw down refl, inr (db.calls, down)))
  | inr up ↦ elim (upsert_in-cases db.backend m (record db { calls = suc db.calls })) [
    | inl (done, rows, same, allowed) ↦
        rw (up, done)
          (read-Outcome m db (upsert_in db.backend m (record db { calls = suc db.calls })).1
            (λ j. ap (find_by_task j) rows ∙ find-put_row j m db.metadata (old_of m db) refl) same
            allowed)
    | inr (e, failed, rows, why) ↦ inr (inl (e, rw (up, failed) refl, rw (up, failed) rows, why))
  ]
]
