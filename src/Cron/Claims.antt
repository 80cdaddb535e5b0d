-- ===== src/Cron/Claims.antt =====
-- Two instances that find the same schedule due.
use cloacina.Common.{
  ℕ, suc, ◌≤◌, ◌<◌, ◌≡◌, refl, true, List, [], ◌∷◌, filter, length, ok, arith, nat_eq, Bool-cases,
  inl, inr, ap, ◌∙◌,
}
use cloacina.Common.Tables.{update_by}
use cloacina.Store.CronRows.{CronSchedule}
use cloacina.Store.CronSchedules.{has_id, claimable, set_times, claim_and_update}
use cloacina.Store.Monad.{Db, connect, gets, modify, pure, ◌>>=◌, ◌>>◌}

module _ (id t1 t2 last next at : ℕ) where
  abbrev after_claim : List CronSchedule → List CronSchedule
  after_claim rows = update_by (claimable id t1) (set_times last next at) rows

  -- A table without the schedule.
  absent :
      (rows : List CronSchedule)
      → length (filter (has_id id) rows) ≡ 0
      → (length (filter (claimable id t1) rows) ≡ 0)
        × (length (filter (claimable id t2) (after_claim rows)) ≡ 0)
  unfolding update_by
  absent [] h = (refl, refl)
  absent (c ∷ rows) h = ground (arith, absent rows)

  claimed_once :
      (rows : List CronSchedule)
      → length (filter (has_id id) rows) ≤ 1
      → length (filter (claimable id t1) rows) ≡ 1
      → t2 < next
      → length (filter (claimable id t2) (after_claim rows)) ≡ 0
  unfolding update_by
  claimed_once [] h k lt = refl
  claimed_once (c ∷ rows) h k lt = elim (Bool-cases (claimable id t1 c)) [
    | inl mine ↦ let rest = absent rows (ground arith) in ground arith
    | inr other ↦ ground (arith, absent rows, claimed_once rows)
  ]

-- The rows that a successful claim updates, and the table after it.
claim-run :
    (id t last next : ℕ) (db : Db)
    → (claim_and_update id t last next db).0 ≡ ok true
    → (length (filter (claimable id t) db.schedules) ≡ 1)
      × ((claim_and_update id t last next db).1.schedules
          ≡ update_by
              (claimable id t)
              (set_times last next (db.world.clock (suc db.calls)))
              db.schedules)
unfolding claim_and_update connect gets modify pure ◌>>=◌ ◌>>◌
claim-run id t last next db h = elim (Bool-cases (db.world.fault db.calls)) [
  | inl down ↦ absurd (ground arith)
  | inr up ↦ (ground arith, rw up refl)
]

-- A claim of a schedule that succeeds is the only one until the next run: a second claim, by any
-- instance that finds the table of schedules as the first left it, does not succeed at a time before
-- the next run that the first wrote, so an occurrence is not handed off twice. The id is a primary
-- key.
pub claim_and_update-once :
    (id t1 t2 last last' next next' : ℕ) (db db' : Db)
    → length (filter (has_id id) db.schedules) ≤ 1
    → (claim_and_update id t1 last next db).0 ≡ ok true
    → db'.schedules ≡ (claim_and_update id t1 last next db).1.schedules
    → t2 < next
    → ¬ ((claim_and_update id t2 last' next' db').0 ≡ ok true)
claim_and_update-once id t1 t2 last last' next next' db db' key first same before second =
    let mine = claim-run id t1 last next db first in
    let theirs = claim-run id t2 last' next' db' second in
    let none_left =
      claimed_once id t1 t2 last next (db.world.clock (suc db.calls)) db.schedules key mine.0
        before in
    let counts = ap (λ rows. length (filter (claimable id t2) rows)) (same ∙ mine.1) in
    absurd (omega arith)
