-- ===== src/Machine/Module.antt =====
-- crates/llmbc/src/module.rs: `Module` and its parts.
use boruna.Prelude.{ℕ, String, List, Option}
use boruna.Prelude.Int.{ℤ}
use boruna.Bytecode.Capability.{Capability}
use boruna.Bytecode.Value.{Value}
use boruna.Machine.Opcode.{Op}

pub record MatchArm : Type 0 where
  pub tag : ℤ
  pub target : ℕ

pub data TypeKind : Type 0 where
  record_type : List (String × String) → TypeKind
  enum_type : List (String × Option String) → TypeKind

pub record TypeDef : Type 0 where
  pub name : String
  pub kind : TypeKind

pub record Function : Type 0 where
  pub name : String
  pub arity : ℕ
  pub locals : ℕ
  pub code : List Op
  pub capabilities : List Capability
  pub intent : Option String
  pub match_tables : List (List MatchArm)

pub record Module : Type 0 where
  pub name : String
  pub version : ℕ
  pub constants : List Value
  pub globals : List String
  pub types : List TypeDef
  pub functions : List Function
  pub entry : ℕ
