-- ===== src/Cron/Fates.antt =====
-- What becomes of each time of a list, in records and in calls of the executor: the terms in which
-- the loop of crates/cloacina/src/cron_scheduler.rs is described.
use mathlib.Core.List.{append_assoc}
use cloacina.Common.{
  ℕ, ◌≡◌, ◌⊎◌, sym, ap, subst, ◌∙◌, true, false, List, [], ◌∷◌, ◌++◌, map, any, All, All-map, Text,
  inl, inr, arith, nat_eq, text_eq,
}
use cloacina.Context
use cloacina.Context.{Context}
use cloacina.Store.CronRows.{CronSchedule}
use cloacina.Store.CronSchedules.{has_id}
use cloacina.Store.Monad.{Db, World}
use cloacina.Executor.Values.{Value}
use cloacina.Cron.Scheduler.{Services, schedule_entries}
use cloacina.Cron.Audits.{audited, is_audited, Faulty}

abbrev pub with_calls : World → List (Text × Context Value) → World
with_calls world calls = record world { handed_off = calls }

abbrev pub hand_over : World → List (Text × Context Value) → World
hand_over world calls = record world { handed_off = world.handed_off ++ calls }

-- What became of a time: no record and no hand-off, a record only, or a record and then a hand-off.
pub data Fate : Type 0 where
  skipped recorded handed : Fate

module _ (s : Services) (schedule : CronSchedule) where
  -- The workflow and the context that a hand-off carries.
  abbrev pub hand_off : ℕ → Text × Context Value
  hand_off t = (schedule.workflow_name, Context.from_data (schedule_entries s schedule t))

  abbrev record_of : ℕ × Fate → List (ℕ × ℕ)
  record_of (t, skipped) = []
  record_of (t, recorded) = (schedule.id, t) ∷ []
  record_of (t, handed) = (schedule.id, t) ∷ []

  abbrev call_of : ℕ × Fate → List (Text × Context Value)
  call_of (t, skipped) = []
  call_of (t, recorded) = []
  call_of (t, handed) = hand_off t ∷ []

  abbrev pub records_of : List (ℕ × Fate) → List (ℕ × ℕ)
  records_of [] = []
  records_of (p ∷ ps) = record_of p ++ records_of ps

  abbrev pub calls_of : List (ℕ × Fate) → List (Text × Context Value)
  calls_of [] = []
  calls_of (p ∷ ps) = call_of p ++ calls_of ps

  -- A time is handed off unless a call or a statement is not answered, the time has another record,
  -- or the schedule is gone; a record without a hand-off has the first of these reasons.
  abbrev pub Explained : World → List CronSchedule → List (ℕ × ℕ) → ℕ × Fate → Type 0
  Explained world schedules records (t, skipped) =
      Faulty world
      ⊎ ((is_audited schedule.id t records ≡ true) ⊎ (any (has_id schedule.id) schedules ≡ false))
  Explained world schedules records (t, recorded) = Faulty world
  Explained world schedules records (t, handed) = Unit

  abbrev pub Passed : List ℕ → Db → Db → Type 0
  Passed ts db after =
      (ps : List (ℕ × Fate)) × (map (λ p. p.0) ps ≡ ts)
      × (audited after.cron_executions ≡ audited db.cron_executions ++ records_of ps)
      × (after.world ≡ hand_over db.world (calls_of ps))
      × (after.schedules ≡ db.schedules)
      × All (Explained db.world db.schedules (audited after.cron_executions)) ps

  is_audited-append :
      (i t : ℕ) (xs ys : List (ℕ × ℕ)) → is_audited i t xs ≡ true → is_audited i t (xs ++ ys) ≡ true
  is_audited-append i t [] ys h = absurd (cc)
  is_audited-append i t (x ∷ xs) ys h = ground (arith, is_audited-append i t xs ys)

  Explained-append :
      (world : World) (schedules : List CronSchedule) (xs ys : List (ℕ × ℕ)) (p : ℕ × Fate)
      → Explained world schedules xs p
      → Explained world schedules (xs ++ ys) p
  Explained-append world schedules xs ys (t, skipped) (inl f) = inl f
  Explained-append world schedules xs ys (t, skipped) (inr (inl a)) =
      inr (inl (is_audited-append schedule.id t xs ys a))
  Explained-append world schedules xs ys (t, skipped) (inr (inr gone)) = inr (inr gone)
  Explained-append world schedules xs ys (t, recorded) f = f
  Explained-append world schedules xs ys (t, handed) u = tt

  Faulty-before :
      (world : World) (calls : List (Text × Context Value)) (world' : World)
      → world' ≡ hand_over world calls
      → Faulty world'
      → Faulty world
  Faulty-before world calls world' w (k, f) = (k, ap (λ v. v.fault k) (sym w) ∙ f)

  Explained-before :
      (world : World) (calls : List (Text × Context Value)) (world' : World)
      (schedules schedules' : List CronSchedule) (records : List (ℕ × ℕ)) (p : ℕ × Fate)
      → world' ≡ hand_over world calls
      → schedules' ≡ schedules
      → Explained world' schedules' records p
      → Explained world schedules records p
  Explained-before world calls world' cs cs' rs (t, skipped) w c (inl f) =
      inl (Faulty-before world calls world' w f)
  Explained-before world calls world' cs cs' rs (t, skipped) w c (inr (inl a)) = inr (inl a)
  Explained-before world calls world' cs cs' rs (t, skipped) w c (inr (inr gone)) =
      inr (inr (ap (λ rows. any (has_id schedule.id) rows) (sym c) ∙ gone))
  Explained-before world calls world' cs cs' rs (t, recorded) w c f =
      Faulty-before world calls world' w f
  Explained-before world calls world' cs cs' rs (t, handed) w c u = tt

  pub Passed-cons :
      (t : ℕ) (fate : Fate) (ts : List ℕ) (db mid after : Db)
      → audited mid.cron_executions ≡ audited db.cron_executions ++ record_of (t, fate)
      → mid.world ≡ hand_over db.world (call_of (t, fate))
      → mid.schedules ≡ db.schedules
      → Explained db.world db.schedules (audited mid.cron_executions) (t, fate)
      → Passed ts mid after
      → Passed (t ∷ ts) db after
  Passed-cons t fate ts db mid after a w c e (ps, times, a', w', c', all) = (
    (t, fate) ∷ ps,
    ap (λ xs. t ∷ xs) times,
    a'
        ∙ ap (λ r. r ++ records_of ps) a
        ∙ append_assoc (audited db.cron_executions) (record_of (t, fate)) (records_of ps),
    w'
        ∙ ap (λ w. hand_over w (calls_of ps)) w
        ∙ ap (with_calls db.world)
            (append_assoc db.world.handed_off (call_of (t, fate)) (calls_of ps)),
    c' ∙ c,
    (
      subst (λ xs. Explained db.world db.schedules xs (t, fate)) (sym a')
          (Explained-append db.world db.schedules (audited mid.cron_executions) (records_of ps)
            (t, fate) e),
      All-map ps
          (λ p x.
            Explained-before db.world (call_of (t, fate)) mid.world db.schedules mid.schedules
              (audited after.cron_executions) p w c x)
          all,
    ),
  )
