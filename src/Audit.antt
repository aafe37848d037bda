-- ===== src/Audit.antt =====
-- orchestrator/src/audit/log.rs: the hash-chained audit log.
pub mod Json
pub mod Entry
pub mod Log
pub mod Append
pub mod Redact
pub mod Encoding
pub mod Tamper
pub mod Built
mod Examples
