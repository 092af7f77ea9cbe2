-- ===== src/Cache/Overlay/Splice.antt =====
-- What the splice of a header and of audio returns.
use native.Mathlib.Decide.{dec_lt}
use music_fs.Base.{
  string_eq, ℕ, ◌+◌, ◌-◌, ◌<◌, ◌≤◌, ◌≡◌, refl, ap, sym, ◌∙◌, some, List, ◌++◌, [], Result, ok,
  if◌then◌else◌, ltb, min, max, length, arith, nat_eq, append-nil, length-append,
}
use music_fs.Base.Dict.{lookup}
use music_fs.Base.Slices.{
  range, range-append, range-range, range_clip, range_past, range_empty, length-range,
}
use music_fs.Base.Words.{as_u32, add_u64, sub_u64, u64_mod, u32_mod}
use music_fs.Core.Types.{FileId}
use music_fs.Cas.Hash.{Hashing}
use music_fs.Cas.Fetcher.{ChunkManifest}
use music_fs.Cas.Reader.{FileReader, Weather, read, slice}
use music_fs.Cas.Reader.Ranges.{Stored, read_exact}
use music_fs.Cache.Overlay.{FormatLayout, OverlayError, splice}
use music_fs.Sync.Cdc.{FastCdc}

-- The virtual file: the header in front of the audio.
abbrev pub virtual_file : List ℕ → FormatLayout → List ℕ → List ℕ
virtual_file header layout content = header ++ range layout.audio_start layout.audio_end content

-- The bytes of the header that a read takes.
slice_header :
    (offset end : ℕ) (header : List ℕ)
    → offset ≤ end
    → (if ltb offset (length header) then slice offset (min end (length header)) header else ok [])
      ≡ ok (range offset end header)
unfolding slice
slice_header offset end header l =
    ground (arith, range_clip offset end header, range_past offset end header)

module _ (h : Hashing) (cdc : FastCdc) (w : Weather) (header : List ℕ) (layout : FormatLayout)
    (r : FileReader) (file_id : FileId) (offset size : ℕ) where
  -- The words of a read that fits 64 bits, and where it ends.
  record Fits (total end : ℕ) : Type 0 where
    audio : sub_u64 layout.audio_end layout.audio_start ≡ layout.audio_end - layout.audio_start
    virtual : add_u64 (length header) (layout.audio_end - layout.audio_start) ≡ total
    last : add_u64 offset size ≡ offset + size
    ends : min (offset + size) total ≡ end

  splice_past :
      (total end : ℕ)
      → Fits total end
      → total ≤ offset
      → splice h cdc w header layout r file_id offset size ≡ (r, ok [])
  unfolding splice
  splice_past total end fits past = rw (fits.audio) (rw (fits.virtual) (ground arith))

  splice_header :
      (total end : ℕ)
      → Fits total end
      → offset < total
      → end ≤ length header
      → splice h cdc w header layout r file_id offset size ≡ (r, ok (range offset end header))
  unfolding splice
  splice_header total end fits within short =
      let head = slice_header offset end header (omega (arith, fits.ends)) in
      rw (fits.audio) (rw (fits.virtual) (rw (fits.last) (rw (fits.ends) (ground (arith, head)))))

  splice_audio :
      (total end : ℕ) (r' : FileReader) (bytes : List ℕ)
      → Fits total end
      → offset < total
      → length header < end
      → read h cdc w r file_id
          (add_u64 layout.audio_start (max (length header) offset - length header))
          (as_u32 (end - max (length header) offset))
        ≡ (r', ok bytes)
      → splice h cdc w header layout r file_id offset size
        ≡ (r', ok (range offset end header ++ bytes))
  unfolding splice
  splice_audio total end r' bytes fits within long got =
      let head = slice_header offset end header (omega (arith, fits.ends)) in
      rw (fits.audio)
        (rw (fits.virtual) (rw (fits.last) (rw (fits.ends) (ground (arith, head, got)))))

  words :
      layout.audio_start ≤ layout.audio_end
      → length header + layout.audio_end < u64_mod
      → offset + size < u64_mod
      → Fits
          (length header + (layout.audio_end - layout.audio_start))
          (min (offset + size) (length header + (layout.audio_end - layout.audio_start)))
  words l fits room = record {
    audio = omega arith;
    virtual = omega arith;
    last = omega arith;
    ends = refl;
  }

  module _ (m : ChunkManifest) (content : List ℕ) (known : lookup file_id r.manifests ≡ some m)
      (total_size : m.total_size ≡ length content) (stored : Stored h w r.store 0 m.chunks content)
      (ordered : layout.audio_start ≤ layout.audio_end) (inside : layout.audio_end ≤ length content)
      (short : length header + length content < u64_mod) (room : offset + size < u64_mod)
      (small : size < u32_mod) where
    abbrev total : ℕ
    total = length header + (layout.audio_end - layout.audio_start)

    abbrev end_at : ℕ
    end_at = min (offset + size) total

    length-audio :
        length (range layout.audio_start layout.audio_end content)
        ≡ layout.audio_end - layout.audio_start
    length-audio = length-range layout.audio_start layout.audio_end content inside

    -- The range of the virtual file, by its parts.
    parts :
        range offset (offset + size) (virtual_file header layout content)
        ≡ range offset (offset + size) header
          ++ range
              (offset - length header)
              (offset + size - length header)
              (range layout.audio_start layout.audio_end content)
    parts =
        range-append offset (offset + size) header
          (range layout.audio_start layout.audio_end content)

    past_end :
        total ≤ offset → range offset (offset + size) (virtual_file header layout content) ≡ []
    past_end past = range_past offset (offset + size) (virtual_file header layout content) (
        omega (
          arith,
          length-audio,
          length-append header (range layout.audio_start layout.audio_end content),
        ))

    within_header :
        offset < total
        → end_at ≤ length header
        → range offset (offset + size) (virtual_file header layout content)
          ≡ range offset end_at header
    within_header within low =
        parts
        ∙ ground (
          arith,
          length-audio,
          append-nil (range offset (offset + size) header),
          range_empty (offset - length header) (offset + size - length header)
              (range layout.audio_start layout.audio_end content),
          range_past (offset - length header) (offset + size - length header)
              (range layout.audio_start layout.audio_end content),
          range_clip offset (offset + size) header,
          range_clip offset end_at header,
        )

    abbrev audio_at : ℕ
    audio_at = layout.audio_start + (offset - length header)

    abbrev audio_size : ℕ
    audio_size = end_at - max (length header) offset

    behind_header :
        offset < total
        → length header < end_at
        → range offset (offset + size) (virtual_file header layout content)
          ≡ range offset end_at header ++ range audio_at (audio_at + audio_size) content
    behind_header within high =
        let e : min (layout.audio_start + (offset + size - length header)) layout.audio_end
            ≡ audio_at + audio_size =
          omega arith in
        let audio =
          range-range (offset - length header) (offset + size - length header) layout.audio_start
            layout.audio_end content
          ∙ ap (λ (n : ℕ). range audio_at n content) e in
        let head : range offset (offset + size) header ≡ range offset end_at header =
          range_clip offset (offset + size) header (omega arith)
          ∙ sym (range_clip offset end_at header (omega arith)) in
        parts
        ∙ (ap
              (λ (x : List ℕ).
                x
                ++ range (offset - length header) (offset + size - length header)
                    (range layout.audio_start layout.audio_end content))
              head
            ∙ ap (λ (x : List ℕ). range offset end_at header ++ x) audio)

    pub splice-range :
        (splice h cdc w header layout r file_id offset size).1
        ≡ ok (range offset (offset + size) (virtual_file header layout content))
    splice-range =
        let fits = words ordered (omega (arith, inside)) room in
        elim (dec_lt offset total) [
          | no past ↦
              ap (λ (x : FileReader × Result OverlayError (List ℕ)). x.1)
                (splice_past total end_at fits (omega arith))
              ∙ ap ok (sym (past_end (omega arith)))
          | yes within ↦ elim (dec_lt (length header) end_at) [
            | no low ↦
                ap (λ (x : FileReader × Result OverlayError (List ℕ)). x.1)
                  (splice_header total end_at fits within (omega arith))
                ∙ ap ok (sym (within_header within (omega arith)))
            | yes high ↦
                let at : add_u64 layout.audio_start (max (length header) offset - length header)
                    ≡ audio_at =
                  omega arith in
                let many : as_u32 (end_at - max (length header) offset) ≡ audio_size =
                  omega arith in
                let got =
                  (read_exact h cdc w r file_id audio_at audio_size m content known total_size
                    stored (omega arith) (omega arith)).0 in
                let run = read h cdc w r file_id audio_at audio_size in
                ap (λ (x : FileReader × Result OverlayError (List ℕ)). x.1)
                  (splice_audio total end_at run.0 (range audio_at (audio_at + audio_size) content)
                    fits within high (rw at (rw many (ground (arith, got)))))
                ∙ ap ok (sym (behind_header within high))
          ]
        ]
