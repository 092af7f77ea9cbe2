-- ===== src/Cache/Flac.antt =====
-- `FlacHandler` of crates/musicfs-cache/src/handlers/flac.rs. A byte is a number below 256; shifts
-- and masks of disjoint bits are written by multiplication, division and remainder.
pub mod Headers
use music_fs.Base.{
  ℕ, zero, suc, ◌+◌, ◌*◌, ◌/◌, ◌%◌, Bool, true, false, Option, none, some, List, [], ◌∷◌, ◌++◌,
  String, Result, ok, err, if◌then◌else◌, ltb, ◌==◌, same, length, take, drop, nat_eq, list_eq,
  string_eq,
}
use music_fs.Base.Slices.{range}
use music_fs.Cas.Hash.{le_bytes}
use music_fs.Core.Types.{AudioMeta, flac}
use music_fs.Cache.Overlay.{
  FormatLayout, FormatError, invalid_data, synthesis_failed, FormatHandler,
}
use music_fs.Cache.Tags.{StdText}
use music_fs.Cache.Vorbis.{
  VorbisComments, build_vorbis_comments, serialize_vorbis_comments, extract_from_vorbis_comments,
}

abbrev pub flac_marker : List ℕ
flac_marker = 0x66 ∷ 0x4C ∷ 0x61 ∷ 0x43 ∷ []

abbrev pub streaminfo_data_size : ℕ
streaminfo_data_size = 34

-- Whether it is the last block, its type, its size.
unfoldable pub parse_block_header : List ℕ → Option (Bool × ℕ × ℕ)
parse_block_header (a ∷ b ∷ c ∷ d ∷ rest) =
    some ((a / 128) % 2 == 1, a % 128, b * 65536 + c * 256 + d)
parse_block_header (a ∷ b ∷ c ∷ []) = none
parse_block_header (a ∷ b ∷ []) = none
parse_block_header (a ∷ []) = none
parse_block_header [] = none

unfoldable pub write_block_header : Bool → ℕ → ℕ → List ℕ
write_block_header is_last block_type size =
    (if is_last then block_type % 128 + 128 else block_type)
    ∷ ((size / 65536) % 256)
    ∷ ((size / 256) % 256)
    ∷ (size % 256)
    ∷ []

-- The data of a STREAMINFO block; another block leaves what was found. The text of the error leaves
-- the size out.
unfoldable pub streaminfo :
    List ℕ → ℕ → ℕ → ℕ → Option (List ℕ) → Result FormatError (Option (List ℕ))
streaminfo bytes offset block_type block_size found =
    if block_type == 0
    then if block_size == streaminfo_data_size
      then if ltb (length bytes) (offset + 4 + block_size)
        then err (invalid_data "Truncated STREAMINFO block")
        else ok (some (range (offset + 4) (offset + 4 + block_size) bytes))
      else err (invalid_data "Invalid STREAMINFO size")
    else ok found

-- The loop over the blocks, as often as the fuel lets it: where the blocks end, and the STREAMINFO.
unfoldable pub blocks :
    ℕ → List ℕ → ℕ → Option (List ℕ) → Option (Result FormatError (ℕ × Option (List ℕ)))
unfolding parse_block_header streaminfo
blocks zero bytes offset found = none
blocks (suc fuel) bytes offset found =
    if ltb (length bytes) (offset + 4)
    then some (err (invalid_data "Truncated FLAC metadata"))
    else elim (parse_block_header (drop offset bytes)) [
      | none ↦ some (err (invalid_data "Invalid block header"))
      | some (is_last, block_type, block_size) ↦
          elim (streaminfo bytes offset block_type block_size found) [
            | err e ↦ some (err e)
            | ok found' ↦ elim is_last [
              | true ↦ some (ok (offset + 4 + block_size, found'))
              | false ↦ blocks fuel bytes (offset + 4 + block_size) found'
            ]
          ]
    ]

abbrev pub layout_of :
    ℕ → Result FormatError (ℕ × Option (List ℕ)) → Result FormatError FormatLayout
layout_of file_size (err e) = err e
layout_of file_size (ok (offset, none)) = err (invalid_data "Missing STREAMINFO block")
layout_of file_size (ok (offset, some info)) =
    ok (record {
      audio_start = offset;
      audio_end = file_size;
      format = flac;
      format_data = some info;
    })

-- With as much fuel as there are bytes.
unfoldable pub analyze : List ℕ → ℕ → Option (Result FormatError FormatLayout)
unfolding blocks
analyze bytes file_size =
    if same (take 4 bytes) flac_marker
    then elim (blocks (length bytes) bytes 4 none) [
      | none ↦ none
      | some r ↦ some (layout_of file_size r)
    ]
    else some (err (invalid_data "Not a FLAC file"))

-- `synthesize`, once the comments are bytes.
unfoldable pub with_comments : List ℕ → FormatLayout → Result FormatError (List ℕ)
unfolding write_block_header
with_comments comments layout = elim layout.format_data [
  | none ↦ err (synthesis_failed "Missing STREAMINFO data in layout")
  | some info ↦
      if length info == streaminfo_data_size
      then ok (
          flac_marker
          ++ (write_block_header false 0 streaminfo_data_size
              ++ (info ++ (write_block_header true 4 (length comments) ++ comments))))
      else err (synthesis_failed "Invalid STREAMINFO size")
]

module _ (std : StdText) {T : Type 0} (v : VorbisComments T) where
  unfoldable pub synthesize : AudioMeta → FormatLayout → Result FormatError (List ℕ)
  unfolding with_comments
  synthesize metadata layout =
      with_comments (serialize_vorbis_comments std v (build_vorbis_comments std v metadata)) layout

  -- What lofty reads of the bytes is given: an error, no comments, or comments.
  unfoldable pub extract : Result String (Option T) → Result FormatError AudioMeta
  extract (err e) = err (invalid_data e)
  extract (ok none) = err (invalid_data "No Vorbis comments found")
  extract (ok (some tag)) = ok (extract_from_vorbis_comments std v tag)

  abbrev pub flac_handler : FormatHandler
  flac_handler = record { synthesize = synthesize; estimate_header_size = λ m. 8192 }
