-- ===== src/Cache/Vorbis.antt =====
-- The comments of `FlacHandler`, crates/musicfs-cache/src/handlers/flac.rs: build_vorbis_comments,
-- serialize_vorbis_comments and extract_from_vorbis_comments. `VorbisComments` is a type of the
-- crate lofty, hence a parameter.
pub mod Restored
use Prim.Native.Char.{code}
use Prim.Native.String
use Prim.Native.String.{[], ◌∷◌}
use music_fs.Base.{
  ℕ, ◌+◌, ◌&&◌, not, Bool, true, false, ◌≡◌, Option, none, some, List, [], ◌∷◌, ◌++◌, String,
  if◌then◌else◌, ltb, leb, ◌==◌, same, length, nat_eq, list_eq, string_eq,
}
use music_fs.Cas.Hash.{le_bytes}
use music_fs.Core.Types.{AudioMeta, flac}
use music_fs.Cache.Tags.{
  StdText, gain_text, default_meta, year_of, parse_replaygain_value, as_bytes, if_some, bind, fmap,
  or_else, insert_all,
}

-- What the handler calls of lofty's comments.
pub record VorbisComments (T : Type 0) : Type 0 where
  pub empty : T
  pub set_title : String → T → T
  pub set_artist : String → T → T
  pub set_album : String → T → T
  pub set_genre : String → T → T
  pub insert : String → String → T → T
  pub title : T → Option String
  pub artist : T → Option String
  pub album : T → Option String
  pub genre : T → Option String
  pub get : T → String → Option String
  pub vendor : T → String
  pub items : T → List (String × String)

-- ASCII letters in lower case.
abbrev ascii_lower : ℕ → ℕ
ascii_lower c = if leb 0x41 c && leb c 0x5A then c + 0x20 else c

unfoldable pub lower_codes : String → List ℕ
lower_codes [] = []
lower_codes (ch ∷ s) = ascii_lower (code ch) ∷ lower_codes s

unfoldable pub eq_ignore_ascii_case : String → String → Bool
unfolding lower_codes
eq_ignore_ascii_case a b = same (lower_codes a) (lower_codes b)

module _ (std : StdText) where
  -- The date, or else the year.
  abbrev pub date_text : AudioMeta → Option String
  date_text m = or_else m.date (fmap std.to_string m.year)

  abbrev pub flag : Bool → String
  flag true = "1"
  flag false = "0"

  -- The keys behind the first four, in the order of the source, with what stands under them if
  -- anything does.
  abbrev pub fields : AudioMeta → List (String × Option String)
  fields m =
      ("ALBUMARTIST", m.album_artist)
      ∷ ("DATE", date_text m)
      ∷ ("TRACKNUMBER", fmap std.to_string m.track)
      ∷ ("TRACKTOTAL", fmap std.to_string m.track_total)
      ∷ ("DISCNUMBER", fmap std.to_string m.disc)
      ∷ ("DISCTOTAL", fmap std.to_string m.disc_total)
      ∷ ("COMPOSER", m.composer)
      ∷ ("COMMENT", m.comment)
      ∷ ("LYRICS", m.lyrics)
      ∷ ("COPYRIGHT", m.copyright)
      ∷ ("COMPILATION", fmap flag m.compilation)
      ∷ ("TITLESORT", m.title_sort)
      ∷ ("ARTISTSORT", m.artist_sort)
      ∷ ("ALBUMSORT", m.album_sort)
      ∷ ("ALBUMARTISTSORT", m.album_artist_sort)
      ∷ ("MUSICBRAINZ_TRACKID", m.mb_recording_id)
      ∷ ("MUSICBRAINZ_ALBUMID", m.mb_album_id)
      ∷ ("MUSICBRAINZ_ARTISTID", m.mb_artist_id)
      ∷ ("MUSICBRAINZ_ALBUMARTISTID", m.mb_album_artist_id)
      ∷ ("MUSICBRAINZ_RELEASEGROUPID", m.mb_release_group_id)
      ∷ ("REPLAYGAIN_TRACK_GAIN", fmap (gain_text std) m.replaygain_track_gain)
      ∷ ("REPLAYGAIN_TRACK_PEAK", fmap std.format_peak m.replaygain_track_peak)
      ∷ ("REPLAYGAIN_ALBUM_GAIN", fmap (gain_text std) m.replaygain_album_gain)
      ∷ ("REPLAYGAIN_ALBUM_PEAK", fmap std.format_peak m.replaygain_album_peak)
      ∷ ("ENCODER", m.encoder)
      ∷ []

  module _ {T : Type 0} (v : VorbisComments T) where
    unfoldable pub build_vorbis_comments : AudioMeta → T
    unfolding insert_all
    build_vorbis_comments m = insert_all v.insert (fields m) (
        if_some v.set_genre m.genre (
          if_some v.set_album m.album
            (if_some v.set_artist m.artist (if_some v.set_title m.title v.empty))))

    -- Length and bytes of each comment.
    unfoldable pub comment_bytes : List (String × String) → List ℕ
    unfolding as_bytes
    comment_bytes [] = []
    comment_bytes ((key, value) ∷ more) =
        let bytes = as_bytes (String.◌++◌ key (String.◌++◌ "=" value)) in
        le_bytes 4 (length bytes) ++ (bytes ++ comment_bytes more)

    unfoldable pub serialize_vorbis_comments : T → List ℕ
    unfolding comment_bytes
    serialize_vorbis_comments tag =
        let vendor = if same (v.vendor tag) "" then "musicfs" else v.vendor tag in
        le_bytes 4 (length (as_bytes vendor))
        ++ (as_bytes vendor ++ (le_bytes 4 (length (v.items tag)) ++ comment_bytes (v.items tag)))

    abbrev pub is_set : String → Bool
    is_set s = if same s "1" then true else eq_ignore_ascii_case s "true"

    unfoldable pub extract_from_vorbis_comments : T → AudioMeta
    unfolding year_of parse_replaygain_value eq_ignore_ascii_case
    extract_from_vorbis_comments tag = record default_meta {
      format = flac;
      title = v.title tag;
      artist = v.artist tag;
      album = v.album tag;
      genre = v.genre tag;
      album_artist = v.get tag "ALBUMARTIST";
      date = v.get tag "DATE";
      year = bind (year_of std) (v.get tag "DATE");
      track = bind std.parse_u32 (v.get tag "TRACKNUMBER");
      track_total = bind std.parse_u32 (v.get tag "TRACKTOTAL");
      disc = bind std.parse_u32 (v.get tag "DISCNUMBER");
      disc_total = bind std.parse_u32 (v.get tag "DISCTOTAL");
      composer = v.get tag "COMPOSER";
      comment = v.get tag "COMMENT";
      lyrics = v.get tag "LYRICS";
      copyright = v.get tag "COPYRIGHT";
      compilation = fmap is_set (v.get tag "COMPILATION");
      title_sort = v.get tag "TITLESORT";
      artist_sort = v.get tag "ARTISTSORT";
      album_sort = v.get tag "ALBUMSORT";
      album_artist_sort = v.get tag "ALBUMARTISTSORT";
      mb_recording_id = v.get tag "MUSICBRAINZ_TRACKID";
      mb_album_id = v.get tag "MUSICBRAINZ_ALBUMID";
      mb_artist_id = v.get tag "MUSICBRAINZ_ARTISTID";
      mb_album_artist_id = v.get tag "MUSICBRAINZ_ALBUMARTISTID";
      mb_release_group_id = v.get tag "MUSICBRAINZ_RELEASEGROUPID";
      replaygain_track_gain = bind (parse_replaygain_value std) (v.get tag "REPLAYGAIN_TRACK_GAIN");
      replaygain_track_peak = bind std.parse_f32 (v.get tag "REPLAYGAIN_TRACK_PEAK");
      replaygain_album_gain = bind (parse_replaygain_value std) (v.get tag "REPLAYGAIN_ALBUM_GAIN");
      replaygain_album_peak = bind std.parse_f32 (v.get tag "REPLAYGAIN_ALBUM_PEAK");
      encoder = v.get tag "ENCODER";
    }
