-- ===== src/Bytecode.antt =====
-- crates/llmbc/src: capabilities and runtime values.
pub mod Capability
pub mod Value
pub mod Identifiers
pub mod Equality
mod Examples
