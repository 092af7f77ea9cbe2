-- ===== src/Cache/Overlay/Reads.antt =====
-- A read of a file that has a layout.
use music_fs.Base.{
  string_eq, ℕ, ◌+◌, ◌<◌, ◌≤◌, ◌≡◌, ap, ◌∙◌, some, List, Result, ok, length, arith, nat_eq,
}
use music_fs.Base.Dict.{lookup}
use music_fs.Base.Slices.{range}
use music_fs.Base.Words.{u64_mod, u32_mod}
use music_fs.Core.Types.{FileId, AudioMeta}
use music_fs.Cas.Hash.{Hashing}
use music_fs.Cas.Fetcher.{ChunkManifest}
use music_fs.Cas.Reader.{FileReader, Weather}
use music_fs.Cas.Reader.Ranges.{Stored}
use music_fs.Cache.Overlay.{
  FormatLayout, OverlayError, OverlayReader, FormatHandler, get_by_format, format_id, splice,
  overlay_read,
}
use music_fs.Sync.Cdc.{FastCdc}
use music_fs.Cache.Overlay.Splice.{virtual_file, splice-range}

-- The database and the registry have what a file needs, and the handler makes its header.
pub record HasHeader (o : OverlayReader) (file_id : FileId) (layout : FormatLayout)
    (header : List ℕ) : Type 0 where
  pub metadata : AudioMeta
  pub maker : FormatHandler
  pub laid_out : o.db.get_format_layout file_id ≡ ok (some layout)
  pub described : o.db.get_file_metadata_row file_id ≡ ok metadata
  pub handled : get_by_format o.registry (format_id layout.format) ≡ some maker
  pub made : maker.synthesize metadata layout ≡ ok header

module _ (h : Hashing) (cdc : FastCdc) (w : Weather) where
  overlay_read-splice :
      (o : OverlayReader) (file_id : FileId) (offset size : ℕ) (layout : FormatLayout)
      (header : List ℕ)
      → HasHeader o file_id layout header
      → overlay_read h cdc w o file_id offset size
        ≡ splice h cdc w header layout o.cas_reader file_id offset size
  unfolding overlay_read
  overlay_read-splice o file_id offset size layout header has =
      ground (arith, has.laid_out, has.described, has.handled, has.made)

  -- A read of a file that has a layout returns the range of the virtual file, the header that the
  -- handler makes followed by the audio of the file, from the offset and of the size that were
  -- asked for; if the database, the registry and the handler give the header, the manifest is at
  -- hand and the chunks are in the store, the audio lies in order within the file, the lengths and
  -- the end of the read fit 64 bits, and the size fits 32.
  pub overlay_read-range :
      (o : OverlayReader) (file_id : FileId) (offset size : ℕ) (layout : FormatLayout)
      (header : List ℕ) (m : ChunkManifest) (content : List ℕ)
      → HasHeader o file_id layout header
      → lookup file_id o.cas_reader.manifests ≡ some m
      → m.total_size ≡ length content
      → Stored h w o.cas_reader.store 0 m.chunks content
      → layout.audio_start ≤ layout.audio_end
      → layout.audio_end ≤ length content
      → length header + length content < u64_mod
      → offset + size < u64_mod
      → size < u32_mod
      → (overlay_read h cdc w o file_id offset size).1
        ≡ ok (range offset (offset + size) (virtual_file header layout content))
  overlay_read-range o file_id offset size layout header m content has known total_size stored
        ordered inside short room small =
      ap (λ (x : FileReader × Result OverlayError (List ℕ)). x.1)
        (overlay_read-splice o file_id offset size layout header has)
      ∙ splice-range h cdc w header layout o.cas_reader file_id offset size m content known
          total_size stored ordered inside short room small
