-- ===== src/Cron/Audits.antt =====
-- What the creation of an audit record does: crates/cloacina/src/dal/unified/cron_execution/crud.rs.
use cloacina.Common.{
  ℕ, suc, ◌≡◌, ◌⊎◌, refl, ap, ◌∙◌, Bool, true, false, ◌&&◌, List, [], ◌∷◌, ◌++◌, map, any, some,
  Result, ok, err, Bool-cases, inl, inr, arith, ◌==◌, nat_eq, ==_refl,
}
use cloacina.Common.Tables.{find_by}
use cloacina.Store.CronRows.{CronExecution}
use cloacina.Store.CronSchedules.{has_id}
use cloacina.Store.CronExecutions
use cloacina.Store.CronExecutions.{new_execution, is_at, insert_allowed}
use cloacina.Store.Monad.{
  Db, World, ValidationError, connect, gets, write_if, new_v4, pure, ◌>>=◌, ◌>>◌, connection_pool,
  database,
}
use cloacina.Store.Queries.{found}

-- Which schedule and which of its times a record is about.
abbrev pub audited : List CronExecution → List (ℕ × ℕ)
audited rows = map (λ e. (e.schedule_id, e.scheduled_time)) rows

-- There is a record of the schedule at the time.
abbrev pub is_audited : ℕ → ℕ → List (ℕ × ℕ) → Bool
is_audited schedule_id t pairs = any (λ p. p.0 == schedule_id && p.1 == t) pairs

-- Some call or statement is not answered.
abbrev pub Faulty : World → Type 0
Faulty world = (k : ℕ) × (world.fault k ≡ true)

-- The state but for the records and the calls.
abbrev pub SameRest : Db → Db → Type 0
SameRest a b = (b.world ≡ a.world) × (b.schedules ≡ a.schedules)

-- A creation adds one record and answers it; or it adds none, since a call is not answered or the
-- keys refuse the record; or it adds one and fails, since the record cannot be read again.
abbrev pub Creation : ℕ → ℕ → Db → Result ValidationError CronExecution × Db → Type 0
Creation i t db r =
    ((row : CronExecution) × (r.0 ≡ ok row)
      × (audited r.1.cron_executions ≡ audited db.cron_executions ++ (i, t) ∷ [])
      × SameRest db r.1)
    ⊎ (((e : ValidationError) × (r.0 ≡ err e)
          × (audited r.1.cron_executions ≡ audited db.cron_executions)
          × SameRest db r.1
          × (Faulty db.world
              ⊎ ((is_audited i t (audited db.cron_executions) ≡ true)
                  ⊎ (any (has_id i) db.schedules ≡ false))))
        ⊎ ((e : ValidationError) × (r.0 ≡ err e)
            × (audited r.1.cron_executions ≡ audited db.cron_executions ++ (i, t) ∷ [])
            × SameRest db r.1
            × Faulty db.world))

audited-append :
    (rows : List CronExecution) (e : CronExecution)
    → audited (rows ++ e ∷ []) ≡ audited rows ++ (e.schedule_id, e.scheduled_time) ∷ []
audited-append [] e = refl
audited-append (r ∷ rows) e =
    ap (λ xs. (r.schedule_id, r.scheduled_time) ∷ xs) (audited-append rows e)

any-audited :
    (i t : ℕ) (rows : List CronExecution) → is_audited i t (audited rows) ≡ any (is_at i t) rows
any-audited i t [] = refl
any-audited i t (r ∷ rows) = ground (arith, any-audited i t rows)

-- A record that was put at the end is found, or one with its id.
find_by-append :
    (rows : List CronExecution) (e : CronExecution)
    → (row : CronExecution) × (find_by (λ r. r.id == e.id) (rows ++ e ∷ []) ≡ some row)
unfolding find_by
find_by-append [] e = (e, rw (==_refl e.id) refl)
find_by-append (r ∷ rows) e = elim (Bool-cases (r.id == e.id)) [
  | inl here ↦ (r, rw here refl)
  | inr there ↦ let f = find_by-append rows e in (f.0, rw there f.1)
]

why_refused :
    (i t : ℕ) (db : Db)
    → insert_allowed i t db ≡ false
    → (is_audited i t (audited db.cron_executions) ≡ true) ⊎ (any (has_id i) db.schedules ≡ false)
why_refused i t db h = elim (Bool-cases (any (is_at i t) db.cron_executions)) [
  | inl there ↦ inl (any-audited i t db.cron_executions ∙ there)
  | inr new ↦ inr (ground arith)
]

-- The calls and statements of a creation, in order.
pub create-Creation : (i t : ℕ) (db : Db) → Creation i t db (CronExecutions.create i t db)
unfolding CronExecutions.create connect new_v4 gets write_if found pure ◌>>=◌ ◌>>◌
create-Creation i t db = elim (Bool-cases (db.world.fault db.calls)) [
  | inl down ↦ inr (
      inl (connection_pool, rw down refl, rw down refl, rw down (refl, refl), inl (db.calls, down)))
  | inr up ↦ elim (Bool-cases (db.world.fault (suc (suc db.calls)))) [
    | inl down ↦ inr (
        inl (
          connection_pool,
          rw (up, down) refl,
          rw (up, down) refl,
          rw (up, down) (refl, refl),
          inl (suc (suc db.calls), down),
        ))
    | inr ready ↦ elim (Bool-cases (insert_allowed i t db)) [
      | inl granted ↦
          let row =
            new_execution (db.world.uuid (suc db.calls)) i t
              (db.world.clock (suc (suc db.calls))) in
          let added = audited-append db.cron_executions row in
          elim (Bool-cases (db.world.fault (suc (suc (suc db.calls))))) [
            | inl down ↦ inr (
                inr (
                  connection_pool,
                  rw (up, ready, granted, down) refl,
                  rw (up, ready, granted, down) added,
                  rw (up, ready, granted, down) (refl, refl),
                  (suc (suc (suc db.calls)), down),
                ))
            | inr last ↦
                let f = find_by-append db.cron_executions row in
                inl (
                  f.0,
                  rw (up, ready, granted, last, f.1) refl,
                  rw (up, ready, granted, last, f.1) added,
                  rw (up, ready, granted, last, f.1) (refl, refl),
                )
          ]
      | inr denied ↦ inr (
          inl (
            database,
            rw (up, ready, denied) refl,
            rw (up, ready, denied) refl,
            rw (up, ready, denied) (refl, refl),
            inr (why_refused i t db denied),
          ))
    ]
  ]
]
