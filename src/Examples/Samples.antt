-- ===== src/Examples/Samples.antt =====
-- Data for the tests: a workflow of two tasks, a database in the middle of its execution, and
-- simple instances of the parameters.
use cloacina.Common.{
  Bool, all, ℕ, true, false, List, [], ◌∷◌, Option, none, some, Text, codes, ◌==◌, text_eq, nat_beq,
  ltb, if◌then◌else◌,
}
use cloacina.Namespace
use cloacina.Namespace.{TaskNamespace, to_string}
use cloacina.Store.Rows.{TaskExecution, PipelineExecution, PipelineStatus, Status}
use cloacina.Store.Monad.{Db, BackendType}
use cloacina.Scheduler.Schedule.{Serde}
use cloacina.Workflow.Order.{before}
use cloacina.Workflow.Graph.{DependencyGraph, Digraph, Petgraph}
use cloacina.Workflow.Tasks.{Task, Workflow}
use cloacina.Scheduler.Rules.{Json, TriggerRule, always}
use cloacina.Scheduler.Contexts.{Registry}

abbrev pub extract_ns : TaskNamespace
extract_ns = Namespace.new (codes "public") (codes "embedded") (codes "etl") (codes "extract")

abbrev pub load_ns : TaskNamespace
load_ns = Namespace.new (codes "public") (codes "embedded") (codes "etl") (codes "load")

abbrev pub task_of : Text → List TaskNamespace → Task
task_of id dependencies = record {
  id = id;
  dependencies = dependencies;
  trigger_rules = codes "Always";
  max_attempts = 3;
}

abbrev pub etl_graph : DependencyGraph
etl_graph = record {
  nodes = extract_ns ∷ load_ns ∷ [];
  edges = (extract_ns, []) ∷ (load_ns, extract_ns ∷ []) ∷ [];
}

abbrev pub etl : Workflow
etl = record {
  name = codes "etl";
  tenant = codes "public";
  «package» = codes "embedded";
  tasks =
      (extract_ns, task_of (codes "extract") [])
      ∷ (load_ns, task_of (codes "load") (extract_ns ∷ []))
      ∷ [];
  dependency_graph = etl_graph;
  metadata = record { version = codes "1"; description = none; tags = [] };
}

abbrev pub registry : Registry
registry name = if name == codes "etl" then some etl else none

abbrev always_rule : Text → Option (TriggerRule ℕ)
always_rule text = if text == codes "Always" then some always else none

abbrev pub json : Json
json = record {
  Value = ℕ;
  F64 = ℕ;
  value_eq = nat_beq;
  is_number = λ v. true;
  is_string = λ v. false;
  is_array = λ v. false;
  as_f64 = λ v. v;
  as_str = λ v. [];
  as_array = λ v. [];
  f64_lt = ltb;
  context_from_json = λ text. none;
  rule_from_json = always_rule;
}

abbrev pub row : ℕ → Text → Status → ℕ → TaskExecution
row id name status recovery_attempts = record {
  id = id;
  pipeline_execution_id = 7;
  task_name = name;
  status = status;
  started_at = none;
  completed_at = none;
  attempt = 1;
  max_attempts = 3;
  error_details = none;
  trigger_rules = codes "Always";
  task_configuration = [];
  retry_at = none;
  last_error = none;
  recovery_attempts = recovery_attempts;
  last_recovery_at = none;
  created_at = 0;
  updated_at = 0;
}

abbrev pub run : PipelineExecution
run = record {
  id = 7;
  pipeline_name = codes "etl";
  pipeline_version = codes "1";
  status = PipelineStatus.running;
  context_id = none;
  started_at = 0;
  completed_at = none;
  error_details = none;
  recovery_attempts = 0;
  last_recovery_at = none;
  created_at = 0;
  updated_at = 0;
}

abbrev pub database : BackendType → List TaskExecution → Db
database backend rows = record {
  tasks = rows;
  pipelines = run ∷ [];
  contexts = [];
  metadata = [];
  recovery_events = [];
  schedules = [];
  cron_executions = [];
  backend = backend;
  calls = 0;
  world = record { fault = λ k. false; clock = λ k. k; uuid = λ k. k; handed_off = [] };
}

abbrev pub extract_done : TaskExecution
extract_done = row 1 (to_string extract_ns) Status.completed 0

abbrev pub load_waiting : TaskExecution
load_waiting = row 2 (to_string load_ns) Status.not_started 0

-- A sort that answers the weights when they are in order already.
abbrev pub in_order : Digraph → Bool
in_order d = all (λ e. before e.0 e.1 d.weights) d.arcs

abbrev pub petgraph : Petgraph
petgraph = record {
  is_cyclic_directed = λ d. false;
  toposort = λ d. if in_order d then some d.weights else none;
}

abbrev pub serde : Serde ℕ
serde = record {
  to_json = λ entries. some (codes "{}");
  without_whitespace = λ text. text;
  always_json = codes "Always";
  empty_object = codes "{}";
}
