-- ===== src/Workflow/Validator.antt =====
-- orchestrator/src/workflow/validator.rs: `WorkflowValidator`. The data of a message stand for its
-- text: a `Problem` is the kind of a `ValidationError` with what its message names.
use mathlib.Core.Option
use Prim.Native.String.{slice}
use text.Mathlib.Text.{find?}
use boruna.Prelude.{
  ℕ, ◌+◌, String, Bool, true, false, not, List, [], ◌∷◌, ◌++◌, Option, none, some, Result, ok, err,
  length, str_eq, ◌==◌, if◌then◌else◌,
}
use boruna.Prelude.BTreeMap.{BTreeMap, contains_key}
use boruna.Kahn.Loop.{Edge, Degrees, Dependents, insert_zero, increment, add_dependent, kahn}
use boruna.Kahn.Waves.{kahn_levels}
use boruna.Workflow.Definition.{StepKind, source, StepDef, WorkflowDef}
use boruna.Workflow.Edges.{insert_edge, contains_edge, all_edges}

pub data ValidationErrorKind : Type 0 where
  empty_workflow missing_field cycle_detected unknown_step unknown_input invalid_capability
        duplicate_edge :
      ValidationErrorKind

pub data Problem : Type 0 where
  empty_name : Problem
  empty_version : Problem
  no_steps : Problem
  unknown_end : String → Problem
  unknown_dependency : String → String → Problem
  unknown_reference : String → String → String → Problem
  invalid_reference : String → String → String → Problem
  no_source : String → Problem
  edge_again : Edge → Problem
  cycle : ℕ → ℕ → Problem

abbrev pub kind_of : Problem → ValidationErrorKind
kind_of empty_name = missing_field
kind_of empty_version = missing_field
kind_of no_steps = empty_workflow
kind_of (unknown_end _) = unknown_step
kind_of (unknown_dependency _ _) = unknown_step
kind_of (unknown_reference _ _ _) = unknown_input
kind_of (invalid_reference _ _ _) = unknown_input
kind_of (no_source _) = missing_field
kind_of (edge_again _) = duplicate_edge
kind_of (cycle _ _) = cycle_detected

-- `topological_order`: the degrees of the steps at first, and the edges counted
unfoldable pub zeros : BTreeMap StepDef → Degrees → Degrees
zeros [] deg = deg
zeros ((id, _) ∷ rest) deg = zeros rest (insert_zero id deg)

unfoldable pub count_edges : List Edge → Dependents → Degrees → Dependents × Degrees
count_edges [] ds deg = (ds, deg)
count_edges ((from, to) ∷ rest) ds deg =
    count_edges rest (add_dependent from to ds) (increment to deg)

-- the end of `topological_order`; the error has the numbers of resolved and of all steps
unfoldable pub resolved : List String → ℕ → Result (List String) (ℕ × ℕ)
resolved order total = if length order == total then ok order else err (length order, total)

unfoldable pub topological_order : WorkflowDef → Result (List String) (ℕ × ℕ)
topological_order def =
    let (ds, deg) = count_edges (all_edges def) [] (zeros def.steps []) in
    resolved (kahn ds deg) (length def.steps)

-- the sum of the lengths of the levels
unfoldable pub total_of : List (List String) → ℕ
total_of [] = 0
total_of (level ∷ rest) = length level + total_of rest

unfoldable pub resolved_levels : List (List String) → ℕ → Result (List (List String)) (ℕ × ℕ)
resolved_levels levels total =
    if total_of levels == total then ok levels else err (total_of levels, total)

unfoldable pub topological_levels : WorkflowDef → Result (List (List String)) (ℕ × ℕ)
topological_levels def =
    let (ds, deg) = count_edges (all_edges def) [] (zeros def.steps []) in
    resolved_levels (kahn_levels ds deg) (length def.steps)

unfoldable pub check_acyclic : WorkflowDef → List Problem
check_acyclic def = elim (topological_order def) [ ok _ ↦ [] | err e ↦ cycle e.0 e.1 ∷ [] ]

-- a problem unless a test holds
abbrev pub unless : Bool → Problem → List Problem
unless true p = []
unless false p = p ∷ []

unfoldable pub edge_problems : BTreeMap StepDef → List Edge → List Problem
edge_problems steps [] = []
edge_problems steps ((from, to) ∷ rest) =
    unless (contains_key from steps) (unknown_end from)
    ++ (unless (contains_key to steps) (unknown_end to) ++ edge_problems steps rest)

unfoldable pub depends_on_problems : BTreeMap StepDef → String → List String → List Problem
depends_on_problems steps id [] = []
depends_on_problems steps id (dep ∷ rest) =
    unless (contains_key dep steps) (unknown_dependency id dep) ++ depends_on_problems steps id rest

unfoldable pub dependency_problems : BTreeMap StepDef → BTreeMap StepDef → List Problem
dependency_problems steps [] = []
dependency_problems steps ((id, step) ∷ rest) =
    depends_on_problems steps id step.depends_on ++ dependency_problems steps rest

-- what stands before the first `.` of a reference
unfoldable pub referenced_step : String → Option String
referenced_step r = Option.map (λ i. slice r 0 i) (find? r ".")

unfoldable pub reference_problem :
    BTreeMap StepDef → String → String → String → Option String → List Problem
reference_problem steps id name r none = invalid_reference id name r ∷ []
reference_problem steps id name r (some ref_step) =
    unless (contains_key ref_step steps) (unknown_reference id name ref_step)

unfoldable pub input_problems : BTreeMap StepDef → String → BTreeMap String → List Problem
input_problems steps id [] = []
input_problems steps id ((name, r) ∷ rest) =
    reference_problem steps id name r (referenced_step r) ++ input_problems steps id rest

unfoldable pub step_input_problems : BTreeMap StepDef → BTreeMap StepDef → List Problem
step_input_problems steps [] = []
step_input_problems steps ((id, step) ∷ rest) =
    input_problems steps id step.inputs ++ step_input_problems steps rest

unfoldable pub source_problem : String → StepKind → List Problem
source_problem id (source s) = unless (not (str_eq s "")) (no_source id)
source_problem id _ = []

unfoldable pub source_problems : BTreeMap StepDef → List Problem
source_problems [] = []
source_problems ((id, step) ∷ rest) = source_problem id step.kind ++ source_problems rest

unfoldable pub duplicate_problems : List Edge → List Edge → List Problem
duplicate_problems seen [] = []
duplicate_problems seen (e ∷ rest) =
    unless (not (contains_edge e seen)) (edge_again e)
    ++ duplicate_problems (insert_edge e seen) rest

unfoldable pub field_problems : WorkflowDef → List Problem
field_problems def =
    unless (not (str_eq def.name "")) empty_name
    ++ (unless (not (str_eq def.version "")) empty_version
        ++ unless (not (length def.steps == 0)) no_steps)

unfoldable pub problems : WorkflowDef → List Problem
problems def =
    field_problems def
    ++ (edge_problems def.steps def.edges
        ++ (dependency_problems def.steps def.steps
            ++ (step_input_problems def.steps def.steps
                ++ (source_problems def.steps
                    ++ (duplicate_problems [] def.edges ++ check_acyclic def)))))

abbrev pub verdict_of : List Problem → Result (Unit {0}) (List Problem)
verdict_of [] = ok tt
verdict_of (p ∷ ps) = err (p ∷ ps)

unfoldable pub validate : WorkflowDef → Result (Unit {0}) (List Problem)
validate def = verdict_of (problems def)
