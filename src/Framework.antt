-- ===== src/Framework.antt =====
-- crates/llmfw/src: the state of an application of the framework.
pub mod StateMachine
pub mod History
mod Examples
