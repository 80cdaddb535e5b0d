-- ===== src/Cron/Evaluator.antt =====
-- crates/cloacina/src/cron_evaluator.rs: the occurrences of a cron expression. The parsers and the
-- search for the next occurrence are the libraries croner and chrono_tz; a time counts nanoseconds of
-- UTC.
use cloacina.Common.{
  ℕ, zero, suc, List, [], ◌∷◌, Option, none, some, Text, codes, ◌==◌, nat_eq, leb, if◌then◌else◌,
  Result, ok, err,
}
use cloacina.Namespace.{cons_head}

pub data CronError : Type 0 where
  invalid_expression invalid_timezone : Text → CronError
  no_next_execution : CronError
  cron_parsing_error : Text → CronError

-- `find_next_occurrence` of a time in UTC, which is not itself an answer; a failure has a text.
pub record Croner : Type 1 where
  pub Cron : Type 0
  pub Tz : Type 0
  pub parse_cron : Text → Result Text Cron
  pub parse_timezone : Text → Option Tz
  pub find_next_occurrence : Cron → Tz → ℕ → Result Text ℕ

pub record CronEvaluator (croner : Croner) : Type 0 where
  pub cron : croner.Cron
  pub timezone : croner.Tz
  pub expression : Text
  pub timezone_str : Text

abbrev pub parsed : {A : Type 0} → Result Text A → Result CronError A
parsed (ok a) = ok a
parsed (err e) = err (cron_parsing_error e)

abbrev zone_of : {A : Type 0} → Text → Option A → Result CronError A
zone_of timezone_str none = err (invalid_timezone timezone_str)
zone_of timezone_str (some tz) = ok tz

abbrev then_ok : {A B : Type 0} → Result CronError A → (A → Result CronError B) → Result CronError B
then_ok (ok a) f = f a
then_ok (err e) f = err e

-- `s.split('@')`
unfoldable pub split_ats : Text → List Text
split_ats [] = [] ∷ []
split_ats (c ∷ s) = if c == b'@' then [] ∷ split_ats s else cons_head c (split_ats s)

module _ (croner : Croner) where
  open croner use {parse_cron, parse_timezone, find_next_occurrence}

  unfoldable pub new : Text → Text → Result CronError (CronEvaluator croner)
  new cron_expr timezone_str = then_ok (parsed (parse_cron cron_expr)) λ cron.
      then_ok (zone_of timezone_str (parse_timezone timezone_str)) λ timezone. ok (record {
        cron = cron;
        timezone = timezone;
        expression = cron_expr;
        timezone_str = timezone_str;
      })

  unfoldable pub next_execution : CronEvaluator croner → ℕ → Result CronError ℕ
  next_execution ev after = parsed (find_next_occurrence ev.cron ev.timezone after)

  abbrev pub cons_ok : ℕ → Result CronError (List ℕ) → Result CronError (List ℕ)
  cons_ok t (ok ts) = ok (t ∷ ts)
  cons_ok t (err e) = err e

  unfoldable pub next_executions : CronEvaluator croner → ℕ → ℕ → Result CronError (List ℕ)
  next_executions ev current_time zero = ok []
  next_executions ev current_time (suc limit) = elim (next_execution ev current_time) [
    | ok next_time ↦ cons_ok next_time (next_executions ev next_time limit)
    | err no_next_execution ↦ ok []
    | err e ↦ err e
  ]

  unfoldable pub executions_between : CronEvaluator croner → ℕ → ℕ → ℕ → Result CronError (List ℕ)
  executions_between ev current_time end zero = ok []
  executions_between ev current_time end (suc max_executions) =
      elim (next_execution ev current_time) [
        | ok next_time ↦
            let more = cons_ok next_time (executions_between ev next_time end max_executions) in
            if leb end next_time then ok [] else more
        | err no_next_execution ↦ ok []
        | err e ↦ err e
      ]

  unfoldable pub validate_expression : Text → Result CronError (Unit {0})
  validate_expression cron_expr = then_ok (parsed (parse_cron cron_expr)) (λ _. ok tt)

  unfoldable pub validate_timezone : Text → Result CronError (Unit {0})
  validate_timezone timezone_str =
      then_ok (zone_of timezone_str (parse_timezone timezone_str)) (λ _. ok tt)

  unfoldable pub validate : Text → Text → Result CronError (Unit {0})
  unfolding validate_expression validate_timezone
  validate cron_expr timezone_str =
      then_ok (validate_expression cron_expr) (λ _. validate_timezone timezone_str)

  abbrev of_ats : List Text → Result CronError (CronEvaluator croner)
  of_ats (expression ∷ timezone ∷ []) = new expression timezone
  of_ats _ = err (invalid_expression (codes "Format should be 'expression@timezone'"))

  unfoldable pub from_str : Text → Result CronError (CronEvaluator croner)
  from_str s = of_ats (split_ats s)
