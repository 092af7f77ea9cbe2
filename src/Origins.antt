-- ===== src/Origins.antt =====
-- Origins: their health, the choice among them, and reads with retries (crates/musicfs-origins).
pub mod Health
pub mod Router
pub mod Registry
pub mod Failover
