-- ===== src/Cache/Frames.antt =====
-- The frames of `Id3v2Handler`, crates/musicfs-cache/src/handlers/id3v2.rs: build_tag_from_meta and
-- extract_from_tag. `Id3v2Tag` is a type of the crate lofty, hence a parameter.
pub mod Numbers
pub mod Restored
use Prim.Native.Char.{code}
use Prim.Native.String
use Prim.Native.String.{[], ◌∷◌}
use music_fs.Base.{
  ℕ, Bool, true, false, Option, none, some, List, [], ◌∷◌, String, Result, ok, err, ◌+◌,
  if◌then◌else◌, ◌==◌, same, string_eq,
}
use music_fs.Core.Types.{AudioMeta, mp3}
use music_fs.Cache.Overlay.{
  FormatLayout, FormatError, invalid_data, synthesis_failed, FormatHandler,
}
use music_fs.Cache.Tags.{
  StdText, gain_text, default_meta, if_some, bind, fmap, insert_all, before, year_of,
  parse_replaygain_value,
}

-- Where a text stands in a tag: a text frame by its identity, a text of the user by its
-- description, the comment, the lyrics.
pub data Slot : Type 0 where
  text user : String → Slot
  comment lyrics : Slot

-- What the handler calls of lofty's tag. `set` inserts a frame (`insert` of a text, comment or
-- unsynchronised text frame, `insert_user_text`), `get` is its counterpart (`get_text`,
-- `get_user_text`, `comment`, the first of `unsync_text`). The numbers of track and disc are those
-- that lofty itself reads.
pub record Id3v2Tag (T : Type 0) : Type 0 where
  pub empty : T
  pub set_title : String → T → T
  pub set_artist : String → T → T
  pub set_album : String → T → T
  pub set_genre : String → T → T
  pub set : Slot → String → T → T
  pub title : T → Option String
  pub artist : T → Option String
  pub album : T → Option String
  pub genre : T → Option String
  pub get : T → Slot → Option String
  pub track : T → Option ℕ
  pub track_total : T → Option ℕ
  pub disk : T → Option ℕ
  pub disk_total : T → Option ℕ

-- The text behind the first `c`, if there is one.
unfoldable pub behind : ℕ → String → Option String
behind c [] = none
behind c (ch ∷ s) = let rest = behind c s in if code ch == c then some s else rest

module _ (std : StdText) where
  -- A number, with the total if there is one.
  abbrev pub number_text : ℕ → Option ℕ → String
  number_text n none = std.to_string n
  number_text n (some t) = String.◌++◌ (std.to_string n) (String.◌++◌ "/" (std.to_string t))

  abbrev pub flag : Bool → String
  flag true = "1"
  flag false = "0"

  -- The frames behind the title, artist and album, in the order of the source; a later one takes
  -- the place of an earlier one.
  abbrev pub early_frames : AudioMeta → List (Slot × Option String)
  early_frames m = (text "TPE2", m.album_artist) ∷ (text "TDRC", fmap std.to_string m.year) ∷ []

  -- The frames behind the genre.
  abbrev pub frames : AudioMeta → List (Slot × Option String)
  frames m =
      (text "TRCK", fmap (λ n. number_text n m.track_total) m.track)
      ∷ (text "TPOS", fmap (λ n. number_text n m.disc_total) m.disc)
      ∷ (text "TDRC", m.date)
      ∷ (text "TCOM", m.composer)
      ∷ (comment, m.comment)
      ∷ (lyrics, m.lyrics)
      ∷ (text "TCOP", m.copyright)
      ∷ (text "TCMP", fmap flag m.compilation)
      ∷ (text "TSOT", m.title_sort)
      ∷ (text "TSOP", m.artist_sort)
      ∷ (text "TSOA", m.album_sort)
      ∷ (text "TSO2", m.album_artist_sort)
      ∷ (user "MusicBrainz Recording Id", m.mb_recording_id)
      ∷ (user "MusicBrainz Album Id", m.mb_album_id)
      ∷ (user "MusicBrainz Artist Id", m.mb_artist_id)
      ∷ (user "MusicBrainz Album Artist Id", m.mb_album_artist_id)
      ∷ (user "MusicBrainz Release Group Id", m.mb_release_group_id)
      ∷ (user "REPLAYGAIN_TRACK_GAIN", fmap (gain_text std) m.replaygain_track_gain)
      ∷ (user "REPLAYGAIN_TRACK_PEAK", fmap std.format_peak m.replaygain_track_peak)
      ∷ (user "REPLAYGAIN_ALBUM_GAIN", fmap (gain_text std) m.replaygain_album_gain)
      ∷ (user "REPLAYGAIN_ALBUM_PEAK", fmap std.format_peak m.replaygain_album_peak)
      ∷ (text "TSSE", m.encoder)
      ∷ []

  -- The first and the second of the parts that slashes separate, as numbers.
  unfoldable pub parse_track_disc : String → Option ℕ × Option ℕ
  unfolding before behind
  parse_track_disc value = (
    std.parse_u32 (before 0x2F value),
    bind (λ rest. std.parse_u32 (before 0x2F rest)) (behind 0x2F value),
  )

  module _ {T : Type 0} (v : Id3v2Tag T) where
    unfoldable pub build_tag_from_meta : AudioMeta → T
    unfolding insert_all
    build_tag_from_meta m = insert_all v.set (frames m) (
        if_some v.set_genre m.genre (
          insert_all v.set (early_frames m) (
            if_some v.set_album m.album
              (if_some v.set_artist m.artist (if_some v.set_title m.title v.empty)))))

    -- The text of the frame, or else what lofty reads.
    abbrev pub first_number : Option String → Option ℕ → Option ℕ
    first_number none n = n
    first_number (some s) n = (parse_track_disc s).0

    abbrev pub second_number : Option String → Option ℕ → Option ℕ
    second_number none n = n
    second_number (some s) n = (parse_track_disc s).1

    unfoldable pub extract_from_tag : T → AudioMeta
    unfolding year_of parse_replaygain_value
    extract_from_tag tag = record default_meta {
      format = mp3;
      title = v.title tag;
      artist = v.artist tag;
      album = v.album tag;
      album_artist = v.get tag (text "TPE2");
      genre = v.genre tag;
      track = first_number (v.get tag (text "TRCK")) (v.track tag);
      track_total = second_number (v.get tag (text "TRCK")) (v.track_total tag);
      disc = first_number (v.get tag (text "TPOS")) (v.disk tag);
      disc_total = second_number (v.get tag (text "TPOS")) (v.disk_total tag);
      date = v.get tag (text "TDRC");
      year = bind (year_of std) (v.get tag (text "TDRC"));
      composer = v.get tag (text "TCOM");
      comment = v.get tag comment;
      lyrics = v.get tag lyrics;
      copyright = v.get tag (text "TCOP");
      compilation = fmap (λ s. same s "1") (v.get tag (text "TCMP"));
      title_sort = v.get tag (text "TSOT");
      artist_sort = v.get tag (text "TSOP");
      album_sort = v.get tag (text "TSOA");
      album_artist_sort = v.get tag (text "TSO2");
      mb_recording_id = v.get tag (user "MusicBrainz Recording Id");
      mb_album_id = v.get tag (user "MusicBrainz Album Id");
      mb_artist_id = v.get tag (user "MusicBrainz Artist Id");
      mb_album_artist_id = v.get tag (user "MusicBrainz Album Artist Id");
      mb_release_group_id = v.get tag (user "MusicBrainz Release Group Id");
      replaygain_track_gain =
          bind (parse_replaygain_value std) (v.get tag (user "REPLAYGAIN_TRACK_GAIN"));
      replaygain_track_peak = bind std.parse_f32 (v.get tag (user "REPLAYGAIN_TRACK_PEAK"));
      replaygain_album_gain =
          bind (parse_replaygain_value std) (v.get tag (user "REPLAYGAIN_ALBUM_GAIN"));
      replaygain_album_peak = bind std.parse_f32 (v.get tag (user "REPLAYGAIN_ALBUM_PEAK"));
      encoder = v.get tag (text "TSSE");
    }

    -- What lofty writes of the tag, or its error, is given.
    unfoldable pub synthesize :
        (T → Result String (List ℕ)) → AudioMeta → FormatLayout → Result FormatError (List ℕ)
    unfolding build_tag_from_meta
    synthesize dump_to metadata layout = elim (dump_to (build_tag_from_meta metadata)) [
      | err e ↦ err (synthesis_failed e)
      | ok bytes ↦ ok bytes
    ]

    -- What lofty reads of the bytes is given: an error, no tag, or a tag.
    unfoldable pub extract : Result String (Option T) → Result FormatError AudioMeta
    unfolding extract_from_tag
    extract (err e) = err (invalid_data e)
    extract (ok none) = err (invalid_data "No ID3v2 tag found")
    extract (ok (some tag)) = ok (extract_from_tag tag)

    abbrev pub id3v2_handler : (T → Result String (List ℕ)) → FormatHandler
    id3v2_handler dump_to = record {
      synthesize = synthesize dump_to;
      estimate_header_size = λ m. 4096 + 1024;
    }
