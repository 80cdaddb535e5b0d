-- ===== src/Router/Rules.antt =====
-- Which rule decides.
use cloacina.Common.{
  ◌≡◌, refl, ap, true, false, List, [], ◌∷◌, ◌++◌, Text, All, ◌⊎◌, inl, inr, Bool-cases,
}
use cloacina.Router.{RoutingConfig, RoutingRule, matches_pattern, resolve_in, resolve}

-- No rule of the list matches the task.
abbrev pub Silent : Text → List RoutingRule → Type 0
Silent task_name rules =
    All (λ (r : RoutingRule). matches_pattern r.task_pattern task_name ≡ false) rules

-- A rule matches, none before it does, and the task goes to its executor.
pub record Decides (rules : List RoutingRule) (task_name executor : Text) : Type 0 where
  pub earlier : List RoutingRule
  pub rule : RoutingRule
  pub later : List RoutingRule
  pub split : rules ≡ earlier ++ rule ∷ later
  pub silent : Silent task_name earlier
  pub matches : matches_pattern rule.task_pattern task_name ≡ true
  pub chosen : executor ≡ rule.executor

resolve_in_lem :
    (rules : List RoutingRule) (default_executor task_name : Text)
    → Decides rules task_name (resolve_in rules default_executor task_name)
      ⊎ (Silent task_name rules × (resolve_in rules default_executor task_name ≡ default_executor))
unfolding resolve_in
resolve_in_lem [] default_executor task_name = inr (tt, refl)
resolve_in_lem (r ∷ rules) default_executor task_name =
    elim (Bool-cases (matches_pattern r.task_pattern task_name)) [
      | inl hit ↦ inl (record {
        earlier = [];
        rule = r;
        later = rules;
        split = refl;
        silent = tt;
        matches = hit;
        chosen = rw hit refl;
      })
      | inr miss ↦ elim (resolve_in_lem rules default_executor task_name) [
        | inl d ↦ inl (record {
          earlier = r ∷ d.earlier;
          rule = d.rule;
          later = d.later;
          split = ap (λ rs. r ∷ rs) d.split;
          silent = (miss, d.silent);
          matches = d.matches;
          chosen = rw miss d.chosen;
        })
        | inr s ↦ inr ((miss, s.0), rw miss s.1)
      ]
    ]

-- The first rule whose pattern matches the task's name decides its executor; when no rule matches,
-- it is the default executor.
pub resolve_lem :
    (config : RoutingConfig) (task_name : Text)
    → Decides config.rules task_name (resolve config task_name)
      ⊎ (Silent task_name config.rules × (resolve config task_name ≡ config.default_executor))
unfolding resolve
resolve_lem config task_name = resolve_in_lem config.rules config.default_executor task_name
