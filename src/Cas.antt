-- ===== src/Cas.antt =====
-- The content-addressable chunk store (crates/musicfs-cas) and the hashes it is keyed by.
pub mod Hash
pub mod Store
pub mod Fetcher
pub mod Reader
