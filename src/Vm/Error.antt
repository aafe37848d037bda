-- ===== src/Vm/Error.antt =====
-- crates/llmvm/src/error.rs: `VmError`, and crates/llmbc/src/module.rs: `BytecodeError`.
use boruna.Prelude.{ℕ, String, List}
use boruna.Prelude.Int.{ℤ}
use boruna.Bytecode.Capability.{Capability}

pub data BytecodeError : Type 0 where
  invalid_magic : BytecodeError
  unsupported_version : ℕ → BytecodeError
  invalid_bytecode : String → BytecodeError
  serialization : String → BytecodeError

pub data VmError : Type 0 where
  stack_underflow : VmError
  stack_overflow : ℕ → VmError
  invalid_ip : ℕ → VmError
  invalid_function : ℕ → VmError
  invalid_constant : ℕ → VmError
  invalid_local : ℕ → VmError
  invalid_global : ℕ → VmError
  type_error : String → String → VmError
  division_by_zero : VmError
  arithmetic_overflow : String → VmError
  capability_denied : Capability → VmError
  capability_budget_exceeded : Capability → VmError
  unknown_capability : ℕ → VmError
  assertion_failed : String → VmError
  contract_violation : String → List String → VmError
  index_out_of_bounds : ℤ → ℕ → VmError
  match_exhausted : VmError
  actor_not_found : ℕ → VmError
  mailbox_empty : VmError
  execution_limit_exceeded : ℕ → VmError
  wall_time_exceeded : ℕ → VmError
  halted : VmError
  budget_exhausted : VmError
  deadlock : VmError
  max_rounds_exceeded : ℕ → VmError
  bytecode : BytecodeError → VmError
