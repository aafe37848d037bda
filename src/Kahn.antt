-- ===== src/Kahn.antt =====
-- Kahn's algorithm, as orchestrator/src/workflow/validator.rs and orchestrator/src/engine/mod.rs
-- write it: the loop, its invariant and what it returns.
pub mod Loop
pub mod Counting
pub mod Invariant
pub mod Sound
pub mod Complete
pub mod Rank
pub mod Waves
pub mod Layers
pub mod Building
