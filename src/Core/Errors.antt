-- ===== src/Core/Errors.antt =====
-- `Error` of crates/musicfs-core/src/error.rs; an I/O error carries its text.
use music_fs.Base.{Bool, true, false, String}

pub data Error : Type 0 where
  io origin_not_found file_not_found path_resolution cache metadata database : String → Error
  database_corrupted origin s3 sftp timeout credential : String → Error
  nfs_stale_handle read_only no_origin_available max_retries_exceeded : Error

unfoldable pub is_not_found : Error → Bool
is_not_found (file_not_found s) = true
is_not_found _ = false
