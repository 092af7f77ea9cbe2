-- ===== src/Core/Types.antt =====
-- crates/musicfs-core/src/types.rs. A `FileId` is the 64-bit pattern of its `i64`; an `f32` is its
-- 32-bit pattern, which the program only stores and prints.
use music_fs.Base.{
  ℕ, ◌/◌, ◌&&◌, ◌≡◌, ◌↔◌, Bool, true, false, Option, List, String, arith, Eq, same, same_iff,
  list_eq, string_eq, nat_eq, if◌then◌else◌,
}
use text.Mathlib.Text.{◌==◌}

abbrev pub OriginId : Type 0
OriginId = String

abbrev pub FileId : Type 0
FileId = ℕ

-- `std::path::PathBuf`, as its components: equality of paths compares these.
pub record FilePath : Type 0 where
  pub rooted : Bool
  pub components : List String

abbrev bool_beq : Bool → Bool → Bool
bool_beq true b = b
bool_beq false true = false
bool_beq false false = true

abbrev path_beq : FilePath → FilePath → Bool
path_beq a b = bool_beq a.rooted b.rooted && same a.components b.components

pub FilePath_iff : (a b : FilePath) → (path_beq a b ≡ true) ↔ (a ≡ b)
FilePath_iff a b = ground (arith, same_iff a.components b.components)

instance abbrev pub FilePath_eq : Eq FilePath
FilePath_eq = record { beq = path_beq; beq_iff = FilePath_iff }

abbrev pub VirtualPath : Type 0
VirtualPath = FilePath

pub record RealPath : Type 0 where
  pub origin_id : OriginId
  pub path : FilePath

-- Nanoseconds after the Unix epoch, or `n + 1` nanoseconds before it.
pub data SystemTime : Type 0 where
  after_epoch before_epoch : ℕ → SystemTime

abbrev pub nanos_per_sec : ℕ
nanos_per_sec = 1_000_000_000

-- `t.duration_since(UNIX_EPOCH).map(|d| d.as_secs() as i64).unwrap_or(0)`
unfoldable pub unix_secs : SystemTime → ℕ
unix_secs (after_epoch n) = n / nanos_per_sec
unix_secs (before_epoch n) = 0

pub data AudioFormat : Type 0 where
  flac mp3 opus vorbis aac alac wav unknown : AudioFormat

-- The extension is given in lower case: Unicode case conversion is the standard library's.
unfoldable pub from_extension : String → AudioFormat
from_extension ext =
    if ext == "flac"
    then flac
    else if ext == "mp3"
    then mp3
    else if ext == "opus"
    then opus
    else if ext == "ogg"
    then vorbis
    else if ext == "m4a"
    then aac
    else if ext == "aac"
    then aac
    else if ext == "wav"
    then wav
    else unknown

pub record AudioMeta : Type 0 where
  pub title : Option String
  pub artist : Option String
  pub album : Option String
  pub album_artist : Option String
  pub genre : Option String
  pub year : Option ℕ
  pub track : Option ℕ
  pub disc : Option ℕ
  pub duration_ms : Option ℕ
  pub bitrate : Option ℕ
  pub sample_rate : Option ℕ
  pub format : AudioFormat
  pub track_total : Option ℕ
  pub disc_total : Option ℕ
  pub date : Option String
  pub composer : Option String
  pub comment : Option String
  pub lyrics : Option String
  pub copyright : Option String
  pub compilation : Option Bool
  pub artist_sort : Option String
  pub album_artist_sort : Option String
  pub album_sort : Option String
  pub title_sort : Option String
  pub mb_recording_id : Option String
  pub mb_album_id : Option String
  pub mb_artist_id : Option String
  pub mb_album_artist_id : Option String
  pub mb_release_group_id : Option String
  pub replaygain_track_gain : Option ℕ
  pub replaygain_track_peak : Option ℕ
  pub replaygain_album_gain : Option ℕ
  pub replaygain_album_peak : Option ℕ
  pub channels : Option ℕ
  pub bits_per_sample : Option ℕ
  pub encoder : Option String

pub record FileMeta : Type 0 where
  pub id : FileId
  pub virtual_path : VirtualPath
  pub real_path : RealPath
  pub size : ℕ
  pub mtime : SystemTime
  pub content_hash : Option (List ℕ)
  pub audio : Option AudioMeta

pub data HealthStatus : Type 0 where
  healthy degraded unhealthy unknown : HealthStatus

pub data OriginType : Type 0 where
  local nfs smb s3 sftp : OriginType
