-- ===== src/Sync.antt =====
-- Chunking and change detection (crates/musicfs-sync).
pub mod Cdc
pub mod Delta
