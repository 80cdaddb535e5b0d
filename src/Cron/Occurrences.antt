-- ===== src/Cron/Occurrences.antt =====
-- Which times the evaluator answers.
use cloacina.Common.{
  ℕ, zero, suc, ◌≤◌, ◌<◌, ◌≡◌, ◌⊎◌, refl, true, List, [], ◌∷◌, Result, ok, err, length, All, mem,
  nat_eq, leb, arith, Bool-cases, inl, inr, ok-injective, subst, ap, Text, if◌then◌else◌,
}
use cloacina.Cron.Evaluator.{
  Croner, CronEvaluator, next_execution, executions_between, no_next_execution, CronError,
  invalid_expression, invalid_timezone, cron_parsing_error, parsed, cons_ok,
}

-- croner finds the next occurrence: the first after the given time.
pub record FindsNext (croner : Croner) (ev : CronEvaluator croner) : Type 1 where
  pub Occurs : ℕ → Type 0
  pub sound :
      (after t : ℕ)
      → croner.find_next_occurrence ev.cron ev.timezone after ≡ ok t
      → (after < t) × Occurs t
  pub first :
      (after t u : ℕ)
      → croner.find_next_occurrence ev.cron ev.timezone after ≡ ok t
      → after < u
      → Occurs u
      → t ≤ u

-- Ascending, after `low` and before `high`.
abbrev pub Ascending : ℕ → ℕ → List ℕ → Type 0
Ascending low high [] = Unit
Ascending low high (t ∷ ts) = (low < t) × (t < high) × Ascending t high ts

module _ (croner : Croner) (ev : CronEvaluator croner) (finds : FindsNext croner ev) where
  open finds use {Occurs}

  next_sound :
      (after t : ℕ)
      → next_execution croner ev after ≡ ok t
      → (after < t) × Occurs t × ((u : ℕ) → after < u → Occurs u → t ≤ u)
  unfolding next_execution
  next_sound after t h = go (croner.find_next_occurrence ev.cron ev.timezone after) refl h
    where
      go :
          (r : Result Text ℕ)
          → croner.find_next_occurrence ev.cron ev.timezone after ≡ r
          → parsed r ≡ ok t
          → (after < t) × Occurs t × ((u : ℕ) → after < u → Occurs u → t ≤ u)
      go (ok t') e h' =
          let same : croner.find_next_occurrence ev.cron ev.timezone after ≡ ok t = cc in
          let here = finds.sound after t same in
          (here.0, here.1, λ u low o. finds.first after t u same low o)
      go (err x) e h' = absurd (cc)

  -- croner's failure is a parsing error, so the loops never see the end of the occurrences.
  next-ne-none : (after : ℕ) → ¬ (next_execution croner ev after ≡ err no_next_execution)
  unfolding next_execution
  next-ne-none after h = go (croner.find_next_occurrence ev.cron ev.timezone after) h
    where
      go : (r : Result Text ℕ) → parsed r ≡ err no_next_execution → ⊥
      go (ok t) e = cc
      go (err x) e = cc

  abbrev Exact : ℕ → ℕ → ℕ → List ℕ → Type 0
  Exact max start end ts =
      Ascending start end ts
      × All Occurs ts
      × (length ts ≤ max)
      × ((u : ℕ)
          → start < u
          → u < end
          → Occurs u
          → (mem u ts ≡ true) ⊎ ((length ts ≡ max) × All (λ t. t < u) ts))

  Exact-cons :
      (max start end t : ℕ) (ts : List ℕ)
      → next_execution croner ev start ≡ ok t
      → t < end
      → Exact max t end ts
      → Exact (suc max) start end (t ∷ ts)
  Exact-cons max start end t ts e before x =
      let n = next_sound start t e in
      (
        (n.0, before, x.0),
        (n.1, x.1),
        omega arith,
        λ u low high o.
            let least = n.2 u low o in
            elim (Bool-cases (leb u t)) [
              | inl le ↦ inl (ground arith)
              | inr gt ↦ elim (x.3 u (ground arith) high o) [
                | inl there ↦ inl (ground arith)
                | inr (full, all) ↦ inr (ap suc full, (ground arith, all))
              ]
            ],
      )

  -- The times between two times are occurrences, in order, after the first time and before the
  -- second, and no more than the limit. No occurrence is left out, but those after the last time of
  -- an answer that is as long as the limit: what a catch-up drops are the latest of the missed
  -- times. croner is taken to find the first occurrence after a time.
  pub executions_between_lem :
      (max start end : ℕ) {ts : List ℕ}
      → executions_between croner ev start end max ≡ ok ts
      → Ascending start end ts
        × All Occurs ts
        × (length ts ≤ max)
        × ((u : ℕ)
            → start < u
            → u < end
            → Occurs u
            → (mem u ts ≡ true) ⊎ ((length ts ≡ max) × All (λ t. t < u) ts))
  unfolding executions_between
  executions_between_lem zero start end h =
      subst (Exact 0 start end) (ok-injective h) (tt, tt, omega arith, λ u l g o. inr (refl, tt))
  executions_between_lem (suc max) start end {ts} h =
      step (λ t ts' e. executions_between_lem max t end {ts = ts'} e)
        (next_execution croner ev start) refl h
    where
      Rest : Type 0
      Rest =
          (t : ℕ) (ts' : List ℕ)
          → executions_between croner ev t end max ≡ ok ts'
          → Exact max t end ts'

      more :
          Rest
          → (t : ℕ) (r : Result CronError (List ℕ)) → executions_between croner ev t end max ≡ r
          → next_execution croner ev start ≡ ok t
          → t < end
          → cons_ok croner t r ≡ ok ts
          → Exact (suc max) start end ts
      more rest t (ok ts') e n before k =
          subst (Exact (suc max) start end) (ok-injective k)
            (Exact-cons max start end t ts' n before (rest t ts' e))
      more rest t (err x) e n before k = absurd (cc)

      step :
          Rest
          → (r : Result CronError ℕ) → next_execution croner ev start ≡ r
          → (elim r as (λ _. Result CronError (List ℕ)) [
            | ok next_time ↦
                let rest =
                  cons_ok croner next_time (executions_between croner ev next_time end max) in
                if leb end next_time then ok [] else rest
            | err no_next_execution ↦ ok []
            | err e ↦ err e
          ])
            ≡ ok ts
          → Exact (suc max) start end ts
      step rest (ok t) e k = elim (Bool-cases (leb end t)) [
        | inl late ↦ subst (Exact (suc max) start end) (ok-injective (rw late at k)) (
          tt,
          tt,
          omega arith,
          λ u low high o. let least = (next_sound start t e).2 u low o in absurd (ground arith),
        )
        | inr early ↦
            more rest t (executions_between croner ev t end max) refl e (ground arith)
              (rw early at k)
      ]
      step rest (err no_next_execution) e k = absurd (next-ne-none start e)
      step rest (err (invalid_expression x)) e k = absurd (cc)
      step rest (err (invalid_timezone x)) e k = absurd (cc)
      step rest (err (cron_parsing_error x)) e k = absurd (cc)
