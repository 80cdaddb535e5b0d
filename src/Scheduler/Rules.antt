-- ===== src/Scheduler/Rules.antt =====
-- crates/cloacina/src/task_scheduler/trigger_rules.rs, and what the scheduler uses of serde_json:
-- a JSON value is opaque, and its tests and accessors are parameters.
use cloacina.Common.{Bool, List, Option, Text}
use cloacina.Common.Dict.{HashMap}

pub data ValueOperator : Type 0 where
  equals not_equals greater_than less_than contains not_contains exists not_exists : ValueOperator

pub data TriggerCondition (Value : Type 0) : Type 0 where
  task_success task_failed task_skipped : (task_name : Text) → TriggerCondition Value
  context_value : (key : Text) → ValueOperator → (value : Value) → TriggerCondition Value

pub data TriggerRule (Value : Type 0) : Type 0 where
  always : TriggerRule Value
  all_of any_of none_of : (conditions : List (TriggerCondition Value)) → TriggerRule Value

pub record Json : Type 1 where
  pub Value : Type 0
  pub F64 : Type 0
  pub value_eq : Value → Value → Bool
  pub is_number : Value → Bool
  pub is_string : Value → Bool
  pub is_array : Value → Bool
  -- `as_f64().unwrap_or(0.0)`, `as_str().unwrap_or("")` and `as_array().unwrap_or(&vec![])`
  pub as_f64 : Value → F64
  pub as_str : Value → Text
  pub as_array : Value → List Value
  pub f64_lt : F64 → F64 → Bool
  -- `serde_json::from_str`
  pub context_from_json : Text → Option (HashMap Text Value)
  pub rule_from_json : Text → Option (TriggerRule Value)
