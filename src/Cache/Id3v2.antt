-- ===== src/Cache/Id3v2.antt =====
-- The analysis of `Id3v2Handler`, crates/musicfs-cache/src/handlers/id3v2.rs, and its call by
-- `analyze_format_layout` of crates/musicfs-cli/src/main.rs.
use Prim.Native.Nat.{bit_or}
use music_fs.Base.{
  ℕ, ◌+◌, ◌*◌, ◌-◌, ◌≤◌, ◌<◌, ◌≡◌, ◌↔◌, ap, ◌∙◌, Bool, false, Option, none, some, List, [], ◌∷◌,
  if◌then◌else◌, ltb, leb, same, length, take, min, nat_eq, list_eq, arith, length-take,
}
use music_fs.Base.Slices.{range}
use music_fs.Core.Types.{mp3}
use music_fs.Cache.Overlay.{FormatLayout}

-- `syncsafe_decode` of the bytes from the sixth on.
unfoldable pub syncsafe_decode : List ℕ → ℕ
syncsafe_decode (a ∷ b ∷ c ∷ d ∷ rest) =
    bit_or (bit_or (bit_or (a * 2_097_152) (b * 16_384)) (c * 128)) d
syncsafe_decode (a ∷ b ∷ c ∷ []) = 0
syncsafe_decode (a ∷ b ∷ []) = 0
syncsafe_decode (a ∷ []) = 0
syncsafe_decode [] = 0

unfoldable pub parse_id3v2_header : List ℕ → Option ℕ
unfolding syncsafe_decode
parse_id3v2_header bytes =
    if ltb (length bytes) 10
    then none
    else if same (range 0 3 bytes) (0x49 ∷ 0x44 ∷ 0x33 ∷ [])
    then some (10 + syncsafe_decode (range 6 10 bytes))
    else none

-- None where the slice of three bytes is out of range, which panics.
unfoldable pub has_id3v1_tag : List ℕ → ℕ → Option Bool
has_id3v1_tag bytes file_size =
    if ltb file_size 128
    then some false
    else let tag_start = file_size - 128 in
      if leb (length bytes) tag_start
      then some false
      else if ltb (length bytes) (tag_start + 3)
      then none
      else some (same (range tag_start (tag_start + 3) bytes) (0x54 ∷ 0x41 ∷ 0x47 ∷ []))

abbrev pub mp3_layout : ℕ → ℕ → FormatLayout
mp3_layout audio_start audio_end = record {
  audio_start = audio_start;
  audio_end = audio_end;
  format = mp3;
  format_data = none;
}

-- `parse_id3v2_header(data).unwrap_or(0)`
unfoldable pub audio_start_of : List ℕ → ℕ
unfolding parse_id3v2_header
audio_start_of bytes = elim (parse_id3v2_header bytes) [ none ↦ 0 | some n ↦ n ]

-- The analysis never fails; none where it panics.
unfoldable pub analyze : List ℕ → ℕ → Option FormatLayout
unfolding audio_start_of has_id3v1_tag
analyze bytes file_size = elim (has_id3v1_tag bytes file_size) [
  | none ↦ none
  | some tagged ↦
      some (mp3_layout (audio_start_of bytes) (if tagged then file_size - 128 else file_size))
]

abbrev pub header_read_size : ℕ
header_read_size = 65_536

-- What the command line gives to the analysis of a file: its first bytes, and its size.
unfoldable pub analyze_format_layout : List ℕ → Option FormatLayout
unfolding analyze
analyze_format_layout content =
    analyze (take (min header_read_size (length content)) content) (length content)

length-header_read :
    (content : List ℕ)
    → length (take (min header_read_size (length content)) content)
      ≡ min header_read_size (length content)
length-header_read content =
    omega (arith, length-take (min header_read_size (length content)) content)

module _ (bytes : List ℕ) (file_size : ℕ) where
  has_id3v1_tag-none :
      (length bytes < file_size - 128 + 3) × (file_size - 128 < length bytes) × (128 ≤ file_size)
      → has_id3v1_tag bytes file_size ≡ none
  unfolding has_id3v1_tag
  has_id3v1_tag-none h = ground (arith, h)

  none-has_id3v1_tag :
      has_id3v1_tag bytes file_size ≡ none
      → (length bytes < file_size - 128 + 3) × (file_size - 128 < length bytes) × (128 ≤ file_size)
  unfolding has_id3v1_tag
  none-has_id3v1_tag h = ground (arith, h)

  has_id3v1_tag-far : length bytes + 128 ≤ file_size → has_id3v1_tag bytes file_size ≡ some false
  unfolding has_id3v1_tag
  has_id3v1_tag-far h = ground (arith, h)

  analyze-none : has_id3v1_tag bytes file_size ≡ none → analyze bytes file_size ≡ none
  unfolding analyze
  analyze-none h = ground (arith, h)

  none-analyze : analyze bytes file_size ≡ none → has_id3v1_tag bytes file_size ≡ none
  unfolding analyze
  none-analyze h = ground (arith, h)

  analyze-far :
      length bytes + 128 ≤ file_size
      → analyze bytes file_size ≡ some (mp3_layout (audio_start_of bytes) file_size)
  unfolding analyze
  analyze-far h = ground (arith, has_id3v1_tag-far h)

-- The analysis of an MP3 file panics exactly if the file has 65662 or 65663 bytes.
pub analyze_format_layout-panics :
    (content : List ℕ)
    → (analyze_format_layout content ≡ none)
      ↔ ((65_661 < length content) × (length content < 65_664))
unfolding analyze_format_layout
analyze_format_layout-panics content =
    let head = take (min header_read_size (length content)) content in
    let read = length-header_read content in
    (
      λ e.
          let where_it_is =
            none-has_id3v1_tag head (length content) (none-analyze head (length content) e) in
          (
            omega (arith, where_it_is.0, where_it_is.1, where_it_is.2, read),
            omega (arith, where_it_is.0, where_it_is.1, where_it_is.2, read),
          ),
      λ h. analyze-none head (length content) (
          has_id3v1_tag-none head (length content) (
            omega (arith, h.0, h.1, read),
            omega (arith, h.0, h.1, read),
            omega (arith, h.0, h.1),
          )),
    )

-- Of an MP3 file of 65664 bytes or more the whole rest counts as audio, whatever it ends with: a
-- tag at its end is never found.
pub analyze_format_layout-no_trailer :
    (content : List ℕ)
    → 65_664 ≤ length content
    → analyze_format_layout content
      ≡ some (mp3_layout (audio_start_of (take header_read_size content)) (length content))
unfolding analyze_format_layout
analyze_format_layout-no_trailer content large =
    let read = length-header_read content in
    let limit : min header_read_size (length content) ≡ header_read_size = omega (arith, large) in
    analyze-far (take (min header_read_size (length content)) content) (length content)
      (omega (arith, read, large))
    ∙ ap (λ (n : ℕ). some (mp3_layout (audio_start_of (take n content)) (length content))) limit
