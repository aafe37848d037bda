-- ===== src/Workflow/Examples.antt =====
-- Workflow definitions at concrete inputs: three steps in a line, and a step that waits for itself.
use boruna.Prelude.{
  ℕ, ◌≤◌, ◌≡◌, ◌↔◌, refl, String, false, List, [], ◌∷◌, none, some, Result, ok, err, arith, str_eq,
  if◌then◌else◌,
}
use boruna.Prelude.BTreeMap
use boruna.Prelude.BTreeSet.{contains}
use boruna.Kahn.Loop.{insert_zero, increment, add_dependent, zero_degree, relax, drain, kahn}
use boruna.Kahn.Waves.{insert_sorted, sort, relax_level, levels_from, kahn_levels}
use boruna.Kahn.Complete.{IsOrder}
use boruna.Workflow.Definition.{
  source, StepDef, WorkflowDef, unsupported_schema_version, Serde, from_json, read_version, decode,
}
use boruna.Workflow.Edges.{
  insert_edge, contains_edge, insert_edges, insert_deps, insert_steps, all_edges,
}
use boruna.Workflow.Validator.{
  cycle, zeros, count_edges, resolved, topological_order, total_of, resolved_levels,
  topological_levels, check_acyclic, edge_problems, depends_on_problems, dependency_problems,
  referenced_step, reference_problem, input_problems, step_input_problems, source_problem,
  source_problems, duplicate_problems, field_problems, problems, validate,
}
use boruna.Workflow.Degrees.{step_ids}
use boruna.Workflow.Order.{JoinsSteps, HasRank, topological_order_lem}
use boruna.Workflow.Levels.{IsLayering, topological_levels-IsLayering}
use boruna.Workflow.Valid.{validate-IsOrder}
use boruna.Workflow.Members.{from_json_iff}

abbrev a_step : List String → BTreeMap.BTreeMap String → StepDef
a_step deps inputs = record {
  kind = source "step.ax";
  capabilities = [];
  inputs = inputs;
  outputs = [];
  depends_on = deps;
  timeout_ms = none;
  retry = none;
  budget = none;
  required_capability_versions = [];
}

abbrev a_workflow : BTreeMap.BTreeMap StepDef → List (String × String) → WorkflowDef
a_workflow steps edges = record {
  schema_version = 1;
  name = "w";
  version = "1.0.0";
  description = "";
  steps = steps;
  edges = edges;
}

abbrev in_line : WorkflowDef
in_line =
    a_workflow
      (("fetch", a_step [] [])
        ∷ ("store", a_step ("transform" ∷ []) (("data", "transform.result") ∷ []))
        ∷ ("transform", a_step [] [])
        ∷ [])
      (("fetch", "transform") ∷ [])

in_line_valid : validate in_line ≡ ok tt
unfolding validate problems field_problems edge_problems dependency_problems depends_on_problems
    step_input_problems input_problems reference_problem referenced_step source_problems
    source_problem duplicate_problems check_acyclic topological_order resolved count_edges zeros
    all_edges insert_steps insert_deps insert_edges insert_edge contains_edge insert_zero increment
    add_dependent zero_degree relax drain kahn BTreeMap.get BTreeMap.insert
in_line_valid = refl

line_levels :
    topological_levels in_line ≡ ok (("fetch" ∷ []) ∷ ("transform" ∷ []) ∷ ("store" ∷ []) ∷ [])
unfolding topological_levels resolved_levels total_of count_edges zeros all_edges insert_steps
    insert_deps insert_edges insert_edge insert_zero increment add_dependent zero_degree relax
    kahn_levels levels_from relax_level sort insert_sorted BTreeMap.get BTreeMap.insert
line_levels = refl

line_joins : JoinsSteps in_line.steps (all_edges in_line)
unfolding all_edges insert_steps insert_deps insert_edges insert_edge contains
line_joins = ((refl, refl), ((refl, refl), tt))

abbrev line_rank : String → ℕ
line_rank v = if str_eq v "fetch" then 0 else if str_eq v "transform" then 1 else 2

line_ranked : HasRank in_line
unfolding all_edges insert_steps insert_deps insert_edges insert_edge contains
line_ranked = (line_rank, ((refl, omega arith), ((refl, omega arith), tt)))

validate-IsOrder_example :
    JoinsSteps in_line.steps (all_edges in_line)
    × (order : List String) × (topological_order in_line ≡ ok order)
    × IsOrder (step_ids in_line.steps) (all_edges in_line) order
validate-IsOrder_example = validate-IsOrder in_line in_line_valid

topological_order_lem_example :
    (((order : List String) × (topological_order in_line ≡ ok order)) ↔ HasRank in_line)
    × ((order : List String)
        → topological_order in_line ≡ ok order
        → IsOrder (step_ids in_line.steps) (all_edges in_line) order)
topological_order_lem_example =
    topological_order_lem in_line ((refl, (refl, tt)), ((refl, tt), (tt, tt))) line_joins

topological_levels-IsLayering_example :
    IsLayering
      (step_ids in_line.steps)
      (all_edges in_line)
      (("fetch" ∷ []) ∷ ("transform" ∷ []) ∷ ("store" ∷ []) ∷ [])
topological_levels-IsLayering_example =
    topological_levels-IsLayering in_line
      (("fetch" ∷ []) ∷ ("transform" ∷ []) ∷ ("store" ∷ []) ∷ []) line_joins line_levels

-- a step that waits for itself
waits_for_itself : topological_order (a_workflow (("a", a_step ("a" ∷ []) []) ∷ []) []) ≡ err (0, 1)
unfolding topological_order resolved count_edges zeros all_edges insert_steps insert_deps
    insert_edges insert_edge insert_zero increment add_dependent zero_degree relax drain kahn
    BTreeMap.get BTreeMap.insert
waits_for_itself = refl

-- With an edge to a step that is not there, an order is returned that holds this name in place of a step
-- that waits for itself.
cycle_missed :
    topological_order
      (a_workflow (("a", a_step ("a" ∷ []) []) ∷ ("b", a_step [] []) ∷ []) (("b", "x") ∷ []))
    ≡ ok ("b" ∷ "x" ∷ [])
unfolding topological_order resolved count_edges zeros all_edges insert_steps insert_deps
    insert_edges insert_edge insert_zero increment add_dependent zero_degree relax drain kahn
    BTreeMap.get BTreeMap.insert
cycle_missed = refl

-- With a dependency on a step that is not there, a cycle is reported too.
cycle_reported : check_acyclic (a_workflow (("a", a_step ("x" ∷ []) []) ∷ []) []) ≡ cycle 0 1 ∷ []
unfolding check_acyclic topological_order resolved count_edges zeros all_edges insert_steps
    insert_deps insert_edges insert_edge insert_zero increment add_dependent zero_degree relax drain
    kahn BTreeMap.get BTreeMap.insert
cycle_reported = refl

-- documents that are the number of their schema version
abbrev numbers : ℕ → Serde
numbers n = record {
  Json = ℕ;
  from_str = λ s. ok n;
  get = λ k v. some v;
  is_null = λ v. false;
  as_u64 = λ v. some v;
  from_value = λ v. ok in_line;
}

from_json_iff_example : (from_json (numbers 1) "1" ≡ ok in_line) ↔ (
    (value v sv : ℕ) × (◌≡◌ {A = Result ℕ String} (ok 1) (ok value))
    × (some value ≡ some v)
    × (false ≡ false)
    × (some v ≡ some sv)
    × (sv ≤ 1)
    × (◌≡◌ {A = Result WorkflowDef String} (ok in_line) (ok in_line)))
from_json_iff_example = from_json_iff (numbers 1) "1" in_line

-- The specification asks for the version 1.
zero_accepted : from_json (numbers 0) "0" ≡ ok in_line
unfolding from_json read_version decode
zero_accepted = refl

newer_refused : from_json (numbers 2) "2" ≡ err (unsupported_schema_version 2 1)
unfolding from_json read_version decode
newer_refused = refl
