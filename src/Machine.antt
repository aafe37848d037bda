-- ===== src/Machine.antt =====
-- crates/llmbc/src/{opcode,module}.rs and crates/llmvm/src/vm.rs: the bytecode and its interpreter.
pub mod Opcode
pub mod Module
pub mod Text
pub mod Platform
pub mod Arith
pub mod Builtins
pub mod Display
pub mod State
pub mod Parts
pub mod Evals
pub mod Handlers
pub mod Exec
pub mod Loop
pub mod Ends
pub mod Safe
pub mod Instructions
pub mod Turns
pub mod Running
pub mod Confined
pub mod Slices
pub mod Overflow
pub mod Binary
pub mod Decoding
pub mod Callgraph
pub mod Visited
pub mod Reachable
pub mod Invokes
mod Examples
