-- ===== src/Core.antt =====
-- The types that every crate shares (crates/musicfs-core).
pub mod Types
pub mod Errors
pub mod Events
pub mod Supervisor
pub mod Resolver
