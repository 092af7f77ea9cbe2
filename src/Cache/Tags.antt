-- ===== src/Cache/Tags.antt =====
-- What the handlers of tags share, and what they ask of the standard library and of the crate lofty.
pub mod Slots
pub mod Print
use Prim.Native.Char.{code}
use Prim.Native.String
use Prim.Native.String.{String, [], ◌∷◌}
use music_fs.Base.{
  ℕ, ◌+◌, ◌/◌, ◌%◌, Option, none, some, List, [], ◌∷◌, ◌++◌, if◌then◌else◌, ltb, ◌==◌, string_eq,
}
use music_fs.Core.Types.{AudioMeta, unknown}

-- Printing and parsing in the standard library: of integers; of an `f32`, by its bit pattern, with
-- two digits and with six digits.
pub record StdText : Type 0 where
  pub to_string : ℕ → String
  pub parse_u32 : String → Option ℕ
  pub format_two_digits : ℕ → String
  pub format_peak : ℕ → String
  pub parse_f32 : String → Option ℕ
  pub trim : String → String
  pub trim_end_matches : String → String → String

-- `#[derive(Default)]`
abbrev pub default_meta : AudioMeta
default_meta = record {
  title = none;
  artist = none;
  album = none;
  album_artist = none;
  genre = none;
  year = none;
  track = none;
  disc = none;
  duration_ms = none;
  bitrate = none;
  sample_rate = none;
  format = unknown;
  track_total = none;
  disc_total = none;
  date = none;
  composer = none;
  comment = none;
  lyrics = none;
  copyright = none;
  compilation = none;
  artist_sort = none;
  album_artist_sort = none;
  album_sort = none;
  title_sort = none;
  mb_recording_id = none;
  mb_album_id = none;
  mb_artist_id = none;
  mb_album_artist_id = none;
  mb_release_group_id = none;
  replaygain_track_gain = none;
  replaygain_track_peak = none;
  replaygain_album_gain = none;
  replaygain_album_peak = none;
  channels = none;
  bits_per_sample = none;
  encoder = none;
}

-- A value that is there is set.
abbrev pub if_some {ℓ κ} : {A : Type ℓ} {T : Type κ} → (A → T → T) → Option A → T → T
if_some f none t = t
if_some f (some a) t = f a t

abbrev pub bind {ℓ κ} : {A : Type ℓ} {B : Type κ} → (A → Option B) → Option A → Option B
bind f none = none
bind f (some a) = f a

abbrev pub fmap {ℓ κ} : {A : Type ℓ} {B : Type κ} → (A → B) → Option A → Option B
fmap f none = none
fmap f (some a) = some (f a)

abbrev pub or_else {ℓ} : {A : Type ℓ} → Option A → Option A → Option A
or_else none d = d
or_else (some a) d = some a

-- One `if let` with its insert after the other.
unfoldable pub insert_all : {K T : Type 0} → (K → String → T → T) → List (K × Option String) → T → T
insert_all put [] tag = tag
insert_all put ((key, value) ∷ more) tag = insert_all put more (if_some (put key) value tag)

-- The text in front of the first `c`, all of it if there is none: `s.split(c).next()`
unfoldable pub before : ℕ → String → String
before c [] = []
before c (ch ∷ s) = let rest = before c s in if code ch == c then [] else ch ∷ rest

-- The UTF-8 bytes of a text.
abbrev utf8_char : ℕ → List ℕ
utf8_char c =
    if ltb c 0x80
    then c ∷ []
    else if ltb c 0x800
    then (0xC0 + c / 0x40) ∷ (0x80 + c % 0x40) ∷ []
    else if ltb c 0x10000
    then (0xE0 + c / 0x1000) ∷ (0x80 + (c / 0x40) % 0x40) ∷ (0x80 + c % 0x40) ∷ []
    else (0xF0 + c / 0x40000)
      ∷ (0x80 + (c / 0x1000) % 0x40)
      ∷ (0x80 + (c / 0x40) % 0x40)
      ∷ (0x80 + c % 0x40)
      ∷ []

unfoldable pub as_bytes : String → List ℕ
as_bytes [] = []
as_bytes (ch ∷ s) = utf8_char (code ch) ++ as_bytes s

module _ (std : StdText) where
  -- `format!("{:.2} dB", gain)`
  abbrev pub gain_text : ℕ → String
  gain_text gain = String.◌++◌ (std.format_two_digits gain) " dB"

  unfoldable pub parse_replaygain_value : String → Option ℕ
  parse_replaygain_value value =
      std.parse_f32 (std.trim_end_matches (std.trim_end_matches (std.trim value) " dB") "dB")

  -- The year of a date.
  unfoldable pub year_of : String → Option ℕ
  unfolding before
  year_of date = std.parse_u32 (before 0x2D date)
