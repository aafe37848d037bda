-- ===== src/Conflict.antt =====
-- orchestrator/src/conflict: the locks of the orchestrator on modules.
pub mod LockTable
pub mod Locking
pub mod Holding
mod Examples
