-- ===== src/Packages.antt =====
-- packages/src: the resolver of packages.
pub mod Resolver
pub mod Manifest
pub mod Resolve
pub mod Sorting
pub mod Order
pub mod Locked
mod Examples
pub mod Closure
pub mod Resolution
pub mod Returns
mod Loading
