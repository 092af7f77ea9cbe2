-- ===== src/Cache/Flac/Headers.antt =====
-- Headers of FLAC files: what is written is read back, and the analysis ends.
use music_fs.Base.{
  ℕ, zero, suc, ◌+◌, ◌*◌, ◌/◌, ◌%◌, ◌≤◌, ◌<◌, ◌≡◌, refl, sym, ap, ◌∙◌, Bool, true, false, Option,
  none, some, List, [], ◌∷◌, ◌++◌, Result, ok, err, ltb, ◌==◌, ==_iff, same, length, take, drop,
  nat_eq, list_eq, arith, append_assoc, length-append, Option-cases, Bool-cases, inl, inr,
}
use music_fs.Base.Slices.{range}
use music_fs.Core.Types.{flac, AudioMeta}
use music_fs.Cache.Overlay.{FormatLayout, FormatError, invalid_data}
use music_fs.Cache.Tags.{StdText}
use music_fs.Cache.Vorbis.{VorbisComments, build_vorbis_comments, serialize_vorbis_comments}
use music_fs.Cache.Flac.{
  flac_marker, parse_block_header, write_block_header, streaminfo, streaminfo_data_size, blocks,
  analyze, layout_of, with_comments, synthesize,
}

-- A block header that is written is read back, if its type and its size fit.
pub parse_block_header-write_block_header :
    (is_last : Bool) (block_type size : ℕ) (rest : List ℕ)
    → block_type < 128
    → size < 16_777_216
    → parse_block_header (write_block_header is_last block_type size ++ rest)
      ≡ some (is_last, block_type, size)
unfolding parse_block_header write_block_header
parse_block_header-write_block_header is_last block_type size rest h k =
    let whole : ((size / 65536) % 256) * 65536 + ((size / 256) % 256) * 256 + size % 256 ≡ size =
      omega (arith, k) in
    go is_last whole
  where
    go :
        (b : Bool)
        → ((size / 65536) % 256) * 65536 + ((size / 256) % 256) * 256 + size % 256 ≡ size
        → parse_block_header (write_block_header b block_type size ++ rest)
          ≡ some (b, block_type, size)
    go true e = ground (arith, e, h)
    go false e = ground (arith, e, h)

module _ (fuel : ℕ) (bytes : List ℕ) (offset : ℕ) (found : Option (List ℕ)) where
  abbrev Ends : Type 0
  Ends =
      (r : Result FormatError (ℕ × Option (List ℕ))) × (blocks (suc fuel) bytes offset found
        ≡ some r)

  -- One round either ends the loop or leaves it to the rest of the fuel.
  blocks-round :
      (offset + 4 ≤ length bytes
        → (size : ℕ) (found' : Option (List ℕ))
        → (r : Result FormatError (ℕ × Option (List ℕ))) × (blocks fuel bytes
              (offset + 4 + size)
              found'
            ≡ some r))
      → Ends
  unfolding blocks
  blocks-round later = elim (Bool-cases (ltb (length bytes) (offset + 4))) [
    | inl short ↦ (err (invalid_data "Truncated FLAC metadata"), ground (arith, short))
    | inr long ↦ elim (Option-cases (parse_block_header (drop offset bytes))) [
      | inl bad ↦ (err (invalid_data "Invalid block header"), ground (arith, long, bad))
      | inr ((is_last, block_type, size), e) ↦
          go is_last block_type size long e (streaminfo bytes offset block_type size found) refl
    ]
  ]
    where
      go :
          (is_last : Bool) (block_type size : ℕ)
          → ltb (length bytes) (offset + 4) ≡ false
          → parse_block_header (drop offset bytes) ≡ some (is_last, block_type, size)
          → (s : Result FormatError (Option (List ℕ)))
          → streaminfo bytes offset block_type size found ≡ s
          → Ends
      go is_last block_type size long e (err x) f = (err x, ground (arith, long, e, f))
      go true block_type size long e (ok found') f =
          (ok (offset + 4 + size, found'), ground (arith, long, e, f))
      go false block_type size long e (ok found') f =
          let (r, g) = later (ground (arith, long)) size found' in
          (r, ground (arith, long, e, f, g))

-- Every round goes on by four bytes at least, so that the bytes are enough fuel.
blocks-ends :
    (fuel : ℕ) (bytes : List ℕ) (offset : ℕ) (found : Option (List ℕ))
    → length bytes ≤ fuel * 4 + offset
    → (r : Result FormatError (ℕ × Option (List ℕ))) × (blocks (suc fuel) bytes offset found
        ≡ some r)
blocks-ends zero bytes offset found h =
    blocks-round zero bytes offset found (λ k size found'. absurd (omega (arith, h, k)))
blocks-ends (suc fuel) bytes offset found h =
    blocks-round (suc fuel) bytes offset found
      (λ k size found'. blocks-ends fuel bytes (offset + 4 + size) found' (omega (arith, h)))

-- The analysis of any bytes comes to an end, with a layout or an error: the loop over the blocks
-- never has more rounds than there are bytes.
pub analyze-ends :
    (bytes : List ℕ) (file_size : ℕ)
    → (r : Result FormatError FormatLayout) × (analyze bytes file_size ≡ some r)
unfolding analyze
analyze-ends [] file_size = (err (invalid_data "Not a FLAC file"), ground arith)
analyze-ends (b ∷ bytes) file_size = elim (Bool-cases (same (take 4 (b ∷ bytes)) flac_marker)) [
  | inr other ↦ (err (invalid_data "Not a FLAC file"), ground (arith, other))
  | inl marked ↦
      let (r, e) = blocks-ends (length bytes) (b ∷ bytes) 4 none (omega arith) in
      (layout_of file_size r, ground (arith, marked, e))
]

drop_first : (xs ys : List ℕ) → drop (length xs) (xs ++ ys) ≡ ys
drop_first [] ys = refl
drop_first (x ∷ xs) ys = drop_first xs ys

take_first : (xs ys : List ℕ) → take (length xs) (xs ++ ys) ≡ xs
take_first [] ys = refl
take_first (x ∷ xs) ys = ap (◌∷◌ x) (take_first xs ys)

module _ (comments audio : List ℕ) (info : List ℕ) (sized : length info ≡ 34)
    (small : length comments < 16_777_216) where
  abbrev tail : List ℕ
  tail = write_block_header true 4 (length comments) ++ comments

  abbrev made : List ℕ
  made = flac_marker ++ (write_block_header false 0 streaminfo_data_size ++ (info ++ tail))

  abbrev bytes : List ℕ
  bytes = made ++ audio

  first_header : parse_block_header (drop 4 bytes) ≡ some (false, 0, 34)
  unfolding write_block_header parse_block_header
  first_header = refl

  second_header : parse_block_header (drop 42 bytes) ≡ some (true, 4, length comments)
  unfolding write_block_header
  second_header =
      ap parse_block_header (
        ap (drop 34) (append_assoc info tail audio)
        ∙ (ap (λ (n : ℕ). drop n (info ++ (tail ++ audio))) (sym sized)
            ∙ drop_first info (tail ++ audio)))
      ∙ parse_block_header-write_block_header true 4 (length comments) (comments ++ audio)
          (omega arith) small

  info_found : range 8 42 bytes ≡ info
  unfolding write_block_header
  info_found =
      ap (take 34) (append_assoc info tail audio)
      ∙ (ap (λ (n : ℕ). take n (info ++ (tail ++ audio))) (sym sized)
          ∙ take_first info (tail ++ audio))

  length-made : length made ≡ 46 + length comments
  unfolding write_block_header
  length-made = omega (arith, length-append info tail, sized)

  long : 46 + length comments ≤ length bytes
  long = omega (arith, length-append made audio, length-made)

  first_round : (fuel : ℕ) → blocks (suc fuel) bytes 4 none ≡ blocks fuel bytes 42 (some info)
  unfolding blocks streaminfo
  first_round fuel = ground (arith, first_header, info_found, long)

  second_round :
      (fuel : ℕ)
      → blocks (suc fuel) bytes 42 (some info) ≡ some (ok (46 + length comments, some info))
  unfolding blocks streaminfo
  second_round fuel = ground (arith, second_header, long)

  rounds :
      (fuel : ℕ) → 2 ≤ fuel → blocks fuel bytes 4 none ≡ some (ok (46 + length comments, some info))
  rounds zero h = absurd (omega arith)
  rounds (suc zero) h = absurd (omega arith)
  rounds (suc (suc fuel)) h = first_round (suc fuel) ∙ second_round fuel

  analyze-made :
      (file_size : ℕ)
      → analyze bytes file_size
        ≡ some (
            ok (record {
              audio_start = length made;
              audio_end = file_size;
              format = flac;
              format_data = some info;
            }))
  unfolding analyze write_block_header
  analyze-made file_size =
      let found = rounds (length bytes) (omega (arith, long)) in
      let sum = length-made in ground (arith, found, sum)

analyze-with_comments :
    (comments audio header : List ℕ) (layout : FormatLayout) (file_size : ℕ)
    → length comments < 16_777_216
    → with_comments comments layout ≡ ok header
    → analyze (header ++ audio) file_size
      ≡ some (
          ok (record {
            audio_start = length header;
            audio_end = file_size;
            format = flac;
            format_data = layout.format_data;
          }))
unfolding with_comments
analyze-with_comments comments audio header layout file_size small e = go layout.format_data refl
  where
    go :
        (o : Option (List ℕ))
        → layout.format_data ≡ o
        → analyze (header ++ audio) file_size
          ≡ some (
              ok (record {
                audio_start = length header;
                audio_end = file_size;
                format = flac;
                format_data = layout.format_data;
              }))
    go none f = absurd (ground (arith, e, f))
    go (some info) f = elim (Bool-cases (length info == streaminfo_data_size)) [
      | inr other ↦ absurd (ground (arith, e, f, other))
      | inl sized ↦
          let same_header : flac_marker
                ++ (write_block_header false 0 streaminfo_data_size
                    ++ (info ++ (write_block_header true 4 (length comments) ++ comments)))
              ≡ header =
            ground (arith, e, f, sized) in
          rw (sym same_header, f)
            (analyze-made comments audio info ((==_iff (length info) 34).0 sized) small file_size)
    ]

-- The analysis of a header that was synthesized, with any audio behind it, finds the audio right
-- behind the header, to the end of the file, and the STREAMINFO of the original; if the comments
-- take less than 2^24 bytes.
pub analyze-synthesize :
    (std : StdText) {T : Type 0} (v : VorbisComments T) (metadata : AudioMeta)
    (audio header : List ℕ) (layout : FormatLayout) (file_size : ℕ)
    → length (serialize_vorbis_comments std v (build_vorbis_comments std v metadata)) < 16_777_216
    → synthesize std v metadata layout ≡ ok header
    → analyze (header ++ audio) file_size
      ≡ some (
          ok (record {
            audio_start = length header;
            audio_end = file_size;
            format = flac;
            format_data = layout.format_data;
          }))
unfolding synthesize
analyze-synthesize std v metadata audio header layout file_size small e =
    analyze-with_comments (serialize_vorbis_comments std v (build_vorbis_comments std v metadata))
      audio header layout file_size small e
