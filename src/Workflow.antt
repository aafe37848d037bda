-- ===== src/Workflow.antt =====
-- orchestrator/src/workflow: workflow definitions and their validator.
pub mod Definition
pub mod Edges
pub mod Validator
pub mod Degrees
pub mod Order
pub mod Levels
pub mod Valid
pub mod Members
mod Examples
