-- ===== src/Core/Events.antt =====
-- crates/musicfs-core/src/events.rs: the events. The bus itself is tokio's broadcast channel; a
-- component that publishes keeps the list of what it published, the last first.
use music_fs.Base.{ℕ, Bool, Option}
use music_fs.Core.Types.{VirtualPath, OriginId, FileId}

pub data Event : Type 0 where
  file_added : VirtualPath → OriginId → Event
  file_removed : VirtualPath → Option FileId → Event
  file_modified : VirtualPath → Event
  file_accessed : FileId → VirtualPath → OriginId → ℕ → ℕ → Event
  origin_connected origin_disconnected sync_started : OriginId → Event
  sync_completed : OriginId → ℕ → Event
  cache_eviction : ℕ → Event
  all_origins_unhealthy : ℕ → Event
  origin_health_changed : OriginId → Bool → Event
