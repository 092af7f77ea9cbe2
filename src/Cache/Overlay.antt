-- ===== src/Cache/Overlay.antt =====
-- crates/musicfs-cache/src/overlay.rs, format_layout.rs and the registry of format_handler.rs: a
-- file is shown with a header made of its metadata in front of its audio.
pub mod Splice
pub mod Reads
use music_fs.Base.{
  ℕ, ◌+◌, ◌-◌, Bool, Option, none, some, List, [], ◌∷◌, ◌++◌, String, Result, ok, err,
  if◌then◌else◌, ltb, leb, min, max, length, string_eq,
}
use music_fs.Base.Dict.{lookup}
use music_fs.Base.Words.{as_u32, add_u64, sub_u64}
use music_fs.Core.Types.{
  FileId, AudioFormat, AudioMeta, flac, mp3, opus, vorbis, aac, alac, wav, unknown,
}
use music_fs.Core.Errors.{Error}
use music_fs.Cas.Hash.{Hashing}
use music_fs.Cas.Reader.{FileReader, ReaderError, Weather, read, slice}
use music_fs.Sync.Cdc.{FastCdc}

pub record FormatLayout : Type 0 where
  pub audio_start : ℕ
  pub audio_end : ℕ
  pub format : AudioFormat
  pub format_data : Option (List ℕ)

pub data FormatError : Type 0 where
  unsupported_format : FormatError
  invalid_data synthesis_failed : String → FormatError

-- What the overlay calls of a `FormatHandler`.
pub record FormatHandler : Type 0 where
  pub synthesize : AudioMeta → FormatLayout → Result FormatError (List ℕ)
  pub estimate_header_size : AudioMeta → ℕ

-- What the overlay asks the database.
pub record Database : Type 0 where
  pub get_format_layout : FileId → Result Error (Option FormatLayout)
  pub get_file_metadata_row : FileId → Result Error AudioMeta

pub data OverlayError : Type 0 where
  database : Error → OverlayError
  handler : FormatError → OverlayError
  cas : ReaderError → OverlayError
  not_found : FileId → OverlayError
  no_handler : AudioFormat → OverlayError

-- The handlers by their identity; the reader is the state that a read changes.
pub record OverlayReader : Type 0 where
  pub db : Database
  pub registry : List (String × FormatHandler)
  pub cas_reader : FileReader

-- `format!("{:?}", format).to_lowercase()`
abbrev pub format_id : AudioFormat → String
format_id flac = "flac"
format_id mp3 = "mp3"
format_id opus = "opus"
format_id vorbis = "vorbis"
format_id aac = "aac"
format_id alac = "alac"
format_id wav = "wav"
format_id unknown = "unknown"

unfoldable pub get_by_format : List (String × FormatHandler) → String → Option FormatHandler
get_by_format registry format = lookup format registry

abbrev pub of_reader :
    FileReader × Result ReaderError (List ℕ) → FileReader × Result OverlayError (List ℕ)
of_reader (r, ok bytes) = (r, ok bytes)
of_reader (r, err e) = (r, err (cas e))

module _ (h : Hashing) (cdc : FastCdc) (w : Weather) where
  -- The two regions of a read: the header, and the audio behind it. A slice out of range, which
  -- panics, is the error `panicked` of the reader.
  unfoldable pub splice :
      List ℕ
      → FormatLayout
      → FileReader
      → FileId
      → ℕ
      → ℕ
      → FileReader × Result OverlayError (List ℕ)
  splice header layout r file_id offset size =
      let header_len = length header in
      let audio_len = sub_u64 layout.audio_end layout.audio_start in
      let virtual_size = add_u64 header_len audio_len in
      let virtual_end = min (add_u64 offset size) virtual_size in
      let from_header =
        if ltb offset header_len then slice offset (min virtual_end header_len) header else ok [] in
      let start = max header_len offset in
      let (r', audio) =
        read h cdc w r file_id (add_u64 layout.audio_start (start - header_len))
          (as_u32 (virtual_end - start)) in
      if leb virtual_size offset then (r, ok []) else elim from_header [
        | err e ↦ (r, err (cas e))
        | ok head ↦
            if ltb header_len virtual_end
            then elim audio [ err e ↦ (r', err (cas e)) | ok bytes ↦ (r', ok (head ++ bytes)) ]
            else (r, ok head)
      ]

  unfoldable pub overlay_read :
      OverlayReader → FileId → ℕ → ℕ → FileReader × Result OverlayError (List ℕ)
  unfolding splice get_by_format
  overlay_read o file_id offset size = elim (o.db.get_format_layout file_id) [
    | err e ↦ (o.cas_reader, err (database e))
    | ok found ↦ elim found [
      | none ↦ of_reader (read h cdc w o.cas_reader file_id offset size)
      | some layout ↦ elim (o.db.get_file_metadata_row file_id) [
        | err e ↦ (o.cas_reader, err (database e))
        | ok metadata ↦ elim (get_by_format o.registry (format_id layout.format)) [
          | none ↦ (o.cas_reader, err (no_handler layout.format))
          | some handler_found ↦ elim (handler_found.synthesize metadata layout) [
            | err e ↦ (o.cas_reader, err (handler e))
            | ok header ↦ splice header layout o.cas_reader file_id offset size
          ]
        ]
      ]
    ]
  ]

unfoldable pub estimate_virtual_size : OverlayReader → FileId → Result OverlayError (Option ℕ)
unfolding get_by_format
estimate_virtual_size o file_id = elim (o.db.get_format_layout file_id) [
  | err e ↦ err (database e)
  | ok found ↦ elim found [
    | none ↦ ok none
    | some layout ↦ elim (o.db.get_file_metadata_row file_id) [
      | err e ↦ err (database e)
      | ok metadata ↦ elim (get_by_format o.registry (format_id layout.format)) [
        | none ↦ err (no_handler layout.format)
        | some handler_found ↦ ok (
            some (
              add_u64 (handler_found.estimate_header_size metadata)
                (sub_u64 layout.audio_end layout.audio_start)))
      ]
    ]
  ]
]
