-- ===== src/Executor/Contexts.antt =====
-- crates/cloacina/src/executor/thread_task_executor.rs: the context that a task starts with, from its
-- pipeline or from its dependencies. What the executor uses of serde_json is a parameter.
use cloacina.Common.{ℕ, Bool, true, false, List, [], ◌∷◌, Option, none, some, Text, Result, ok, err}
use cloacina.Common.Dict.{HashMap}
use cloacina.Context
use cloacina.Context.{Context, ContextError}
use cloacina.Namespace.{TaskNamespace}
use cloacina.Store.Rows.{PipelineExecution, TaskExecutionMetadata}
use cloacina.Store.Monad.{M, ValidationError, ◌>>=◌, pure, attempt_of}
use cloacina.Store.Pipelines
use cloacina.Store.Metadata.{get_dependency_metadata_with_contexts}
use cloacina.Scheduler.Rules.{Json, TriggerRule}
use cloacina.Scheduler.Contexts.{read_context}
use cloacina.Scheduler.State.{TaskReadyEvent}
use cloacina.Executor.Values.{
  Value, Items, number, string, array, nil, item, value_eq, merge_context_values,
}

-- The parser and the numbers of serde_json.
pub record Parser : Type 1 where
  pub F64 : Type 0
  pub as_f64 : ℕ → F64
  pub zero_f64 : F64
  pub f64_lt : F64 → F64 → Bool
  pub context_from_json : Text → Option (HashMap Text Value)
  pub rule_from_json : Text → Option (TriggerRule Value)

abbrev is_number : Value → Bool
is_number (number n) = true
is_number _ = false

abbrev is_string : Value → Bool
is_string (string s) = true
is_string _ = false

abbrev is_array : Value → Bool
is_array (array xs) = true
is_array _ = false

abbrev items_list : Items → List Value
items_list nil = []
items_list (item x xs) = x ∷ items_list xs

abbrev as_str : Value → Text
as_str (string s) = s
as_str _ = []

abbrev as_array : Value → List Value
as_array (array xs) = items_list xs
as_array _ = []

abbrev as_f64 : (parser : Parser) → Value → parser.F64
as_f64 parser (number n) = parser.as_f64 n
as_f64 parser _ = parser.zero_f64

-- The scheduler's view of the same values.
abbrev pub json_of : Parser → Json
json_of parser = record {
  Value = Value;
  F64 = parser.F64;
  value_eq = value_eq;
  is_number = is_number;
  is_string = is_string;
  is_array = is_array;
  as_f64 = as_f64 parser;
  as_str = as_str;
  as_array = as_array;
  f64_lt = parser.f64_lt;
  context_from_json = parser.context_from_json;
  rule_from_json = parser.rule_from_json;
}

-- `let _ = context.insert(…)`: a refused call leaves the context as it is.
abbrev or_keep : Context Value → Result ContextError (Context Value) → Context Value
or_keep context (ok c) = c
or_keep context (err e) = context

unfoldable pub insert_entries : HashMap Text Value → Context Value → Context Value
insert_entries [] context = context
insert_entries ((key, value) ∷ entries) context =
    insert_entries entries (or_keep context (Context.insert key value context))

-- One entry of a dependency's context: merged with what is there, or inserted.
unfoldable pub merge_value : Text → Value → Context Value → Context Value
merge_value key value context = elim (Context.get key context) [
  | some existing_value ↦
      or_keep context (Context.update key (merge_context_values existing_value value) context)
  | none ↦ or_keep context (Context.insert key value context)
]

unfoldable pub merge_values : HashMap Text Value → Context Value → Context Value
merge_values [] context = context
merge_values ((key, value) ∷ entries) context = merge_values entries (merge_value key value context)

module _ (parser : Parser) where
  open parser use {context_from_json}

  abbrev merge_parsed : Option (HashMap Text Value) → Context Value → Context Value
  merge_parsed none context = context
  merge_parsed (some entries) context = merge_values entries context

  abbrev merge_json : Option Text → Context Value → Context Value
  merge_json none context = context
  merge_json (some json_str) context = merge_parsed (context_from_json json_str) context

  -- The loop over the outputs of the dependencies: one that is missing or no JSON is passed over.
  unfoldable pub merge_outputs :
      List (TaskExecutionMetadata × Option Text) → Context Value → Context Value
  merge_outputs [] context = context
  merge_outputs ((m, json) ∷ rows) context = merge_outputs rows (merge_json json context)

  abbrev merge_rows :
      Result ValidationError (List (TaskExecutionMetadata × Option Text)) → Context Value
  merge_rows (err e) = Context.new
  merge_rows (ok rows) = merge_outputs rows Context.new

  abbrev with_initial : Result ValidationError (Context Value) → Context Value
  with_initial (err e) = Context.new
  with_initial (ok initial) = insert_entries initial.data_ Context.new

  unfoldable pub load_initial : Option ℕ → M (Context Value)
  load_initial none = pure Context.new
  load_initial (some context_id) = do
    r ← attempt_of (read_context (json_of parser) context_id)
    pure (with_initial r)

  unfoldable pub load_pipeline : Result ValidationError PipelineExecution → M (Context Value)
  load_pipeline (err e) = pure Context.new
  load_pipeline (ok pipeline) = load_initial pipeline.context_id

  -- A read that fails is passed over, so the context is built in any case.
  unfoldable pub build_task_context : TaskReadyEvent → List TaskNamespace → M (Context Value)
  build_task_context claimed_task [] = do
    pipeline ← attempt_of (Pipelines.get_by_id claimed_task.pipeline_execution_id)
    load_pipeline pipeline
  build_task_context claimed_task (dep ∷ dependencies) = do
    rows ← attempt_of (
        get_dependency_metadata_with_contexts claimed_task.pipeline_execution_id
          (dep ∷ dependencies))
    pure (merge_rows rows)
