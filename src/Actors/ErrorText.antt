-- ===== src/Actors/ErrorText.antt =====
-- crates/llmvm/src/error.rs and crates/llmbc/src/module.rs: the texts of the errors.
use Prim.Native.String.{◌++◌}
use boruna.Prelude.{String}
use boruna.Bytecode.Capability.{name}
use boruna.Vm.Error
use boruna.Vm.Error.{VmError, BytecodeError}
use boruna.Machine.Text.{show_nat, show_int, join}

unfoldable pub show_bytecode_error : BytecodeError → String
show_bytecode_error Error.invalid_magic = "invalid magic bytes"
show_bytecode_error (Error.unsupported_version n) = "unsupported version: " ++ show_nat n
show_bytecode_error (Error.invalid_bytecode s) = "invalid bytecode: " ++ s
show_bytecode_error (Error.serialization s) = "serialization error: " ++ s

unfoldable pub show_error : VmError → String
show_error Error.stack_underflow = "stack underflow"
show_error (Error.stack_overflow n) = "stack overflow (max " ++ show_nat n ++ ")"
show_error (Error.invalid_ip n) = "invalid instruction pointer: " ++ show_nat n
show_error (Error.invalid_function n) = "invalid function index: " ++ show_nat n
show_error (Error.invalid_constant n) = "invalid constant index: " ++ show_nat n
show_error (Error.invalid_local n) = "invalid local index: " ++ show_nat n
show_error (Error.invalid_global n) = "invalid global index: " ++ show_nat n
show_error (Error.type_error expected got) = "type error: expected " ++ expected ++ ", got " ++ got
show_error Error.division_by_zero = "division by zero"
show_error (Error.arithmetic_overflow s) = "integer overflow in " ++ s
show_error (Error.capability_denied c) = "capability denied: " ++ name c
show_error (Error.capability_budget_exceeded c) = "capability budget exceeded: " ++ name c
show_error (Error.unknown_capability n) = "unknown capability id: " ++ show_nat n
show_error (Error.assertion_failed s) = "assertion failed: " ++ s
show_error (Error.contract_violation message counterexample) =
    message ++ " [counterexample: (" ++ join ", " counterexample ++ ")]"
show_error (Error.index_out_of_bounds index len) =
    "list index out of bounds: index " ++ show_int index ++ ", length " ++ show_nat len
show_error Error.match_exhausted = "no match found for value"
show_error (Error.actor_not_found n) = "actor not found: " ++ show_nat n
show_error Error.mailbox_empty = "actor mailbox empty (blocking not supported in this mode)"
show_error (Error.execution_limit_exceeded n) =
    "max execution steps exceeded (" ++ show_nat n ++ ")"
show_error (Error.wall_time_exceeded n) =
    "wall-clock execution limit exceeded (" ++ show_nat n ++ " ms)"
show_error Error.halted = "halt"
show_error Error.budget_exhausted = "execution budget exhausted"
show_error Error.deadlock = "deadlock: all actors blocked with no pending messages"
show_error (Error.max_rounds_exceeded n) = "max scheduler rounds exceeded (" ++ show_nat n ++ ")"
show_error (Error.bytecode e) = "bytecode error: " ++ show_bytecode_error e
