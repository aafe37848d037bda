-- ===== src/Workflow/Definition.antt =====
-- orchestrator/src/workflow/definition.rs: workflow definitions, and the gate on `schema_version` of
-- `from_json`. `serde_json` is the record `Serde`.
use boruna.Prelude.{ℕ, String, Bool, List, Option, none, some, Result, ok, err, ltb, if◌then◌else◌}
use boruna.Prelude.BTreeMap.{BTreeMap}

abbrev pub workflow_dag_schema_version : ℕ
workflow_dag_schema_version = 1

pub data StepKind : Type 0 where
  source : String → StepKind
  approval_gate : String → Option String → StepKind
  external_trigger : Option String → StepKind

pub record RetryPolicy : Type 0 where
  pub max_attempts : ℕ
  pub on_transient : Bool
  pub retry_on : List String

pub record StepBudget : Type 0 where
  pub max_tokens : Option ℕ
  pub max_calls : Option ℕ

pub record StepDef : Type 0 where
  pub kind : StepKind
  pub capabilities : List String
  pub inputs : BTreeMap String
  pub outputs : BTreeMap String
  pub depends_on : List String
  pub timeout_ms : Option ℕ
  pub retry : Option RetryPolicy
  pub budget : Option StepBudget
  pub required_capability_versions : BTreeMap String

pub record WorkflowDef : Type 0 where
  pub schema_version : ℕ
  pub name : String
  pub version : String
  pub description : String
  pub steps : BTreeMap StepDef
  pub edges : List (String × String)

pub data WorkflowParseError : Type 0 where
  missing_schema_version : WorkflowParseError
  unsupported_schema_version : ℕ → ℕ → WorkflowParseError
  invalid_json : String → WorkflowParseError

unfoldable pub error_kind : WorkflowParseError → String
error_kind missing_schema_version = "workflow.missing_schema_version"
error_kind (unsupported_schema_version _ _) = "workflow.unsupported_schema_version"
error_kind (invalid_json _) = "workflow.invalid_json"

-- what `from_json` takes from `serde_json`; `from_value` decodes the fields of a definition
pub record Serde : Type 1 where
  pub Json : Type 0
  pub from_str : String → Result Json String
  pub get : String → Json → Option Json
  pub is_null : Json → Bool
  pub as_u64 : Json → Option ℕ
  pub from_value : Json → Result WorkflowDef String

module _ (s : Serde) where
  -- the gates after `schema_version` was read as a number
  unfoldable pub decode : s.Json → ℕ → Result WorkflowDef WorkflowParseError
  decode value sv =
      if ltb 4294967295 sv
      then err (unsupported_schema_version 4294967295 workflow_dag_schema_version)
      else if ltb workflow_dag_schema_version sv
      then err (unsupported_schema_version sv workflow_dag_schema_version)
      else elim (s.from_value value) [ err e ↦ err (invalid_json e) | ok def ↦ ok def ]

  unfoldable pub read_version : Option s.Json → Result ℕ WorkflowParseError
  read_version none = err missing_schema_version
  read_version (some v) = if s.is_null v then err missing_schema_version else elim (s.as_u64 v) [
    | none ↦ err (invalid_json "field `schema_version` must be a non-negative integer")
    | some sv ↦ ok sv
  ]

  unfoldable pub from_json : String → Result WorkflowDef WorkflowParseError
  from_json json = elim (s.from_str json) [
    | err e ↦ err (invalid_json e)
    | ok value ↦ elim (read_version (s.get "schema_version" value)) [
      | err e ↦ err e
      | ok sv ↦ decode value sv
    ]
  ]
