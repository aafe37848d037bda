-- ===== src/Vm.antt =====
-- crates/llmvm/src: the event log, the policy-checked capability gateway and replay.
pub mod EventLog
pub mod Error
pub mod Policy
pub mod Gateway
pub mod Handlers
pub mod Routing
pub mod Client
pub mod Verify
pub mod Recorded
pub mod Watched
pub mod Budget
pub mod Trail
pub mod Replay
pub mod Sealed
mod Examples
