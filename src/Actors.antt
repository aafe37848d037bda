-- ===== src/Actors.antt =====
-- crates/llmvm/src/actor.rs: the actors, each with a machine of its own, and their scheduler.
pub mod MockHandler
pub mod ErrorText
pub mod System
pub mod Turns
pub mod Scheduling
pub mod Kin
pub mod Ranks
pub mod Delivery
pub mod Cascade
pub mod Failure
mod Examples
