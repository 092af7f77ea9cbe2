-- ===== src/Cache.antt =====
-- The caching layer, crates/musicfs-cache/src.
pub mod Eviction
pub mod Overlay
pub mod Tree
pub mod Tags
pub mod Vorbis
pub mod Flac
pub mod Id3v2
pub mod Frames
pub mod Patterns
