-- ===== src/Scheduler.antt =====
-- orchestrator/src/engine: the scheduler of a work graph.
pub mod Graph
pub mod Enabled
pub mod Ready
pub mod Status
pub mod Evolves
pub mod Sound
pub mod Parallel
pub mod Dag
pub mod Links
pub mod Order
mod Examples
