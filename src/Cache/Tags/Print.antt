-- ===== src/Cache/Tags/Print.antt =====
-- What is printed of numbers, and read again: what the standard library documents of it, and the
-- texts in front of and behind a character.
use Prim.Native.Char.{Char, code}
use Prim.Native.String
use Prim.Native.String.{[], ◌∷◌}
use text.Mathlib.TextLemmas.{nil-append, cons-append}
use music_fs.Base.{
  ℕ, ◌<◌, ◌≡◌, ◌⊎◌, refl, sym, ap, ◌∙◌, Bool, true, false, not, ◌&&◌, Option, none, some, String,
  if◌then◌else◌, leb, ◌==◌, arith, inl, inr,
}
use music_fs.Base.Words.{u32_mod}
use music_fs.Core.Types.{AudioMeta}
use music_fs.Cache.Tags.{
  StdText, bind, fmap, or_else, before, year_of, gain_text, parse_replaygain_value,
}

unfoldable pub all_digits : String → Bool
all_digits [] = true
all_digits (ch ∷ s) = leb 0x30 (code ch) && leb (code ch) 0x39 && all_digits s

unfoldable pub lacks : ℕ → String → Bool
lacks c [] = true
lacks c (ch ∷ s) = not (code ch == c) && lacks c s

-- The documented behaviour of the standard library: an integer is printed in digits, and a print
-- that fits is parsed back; a printed `f32` has no white space around it and does not end in a unit.
pub record StdTextLaws (std : StdText) : Type 0 where
  pub parse-print : (n : ℕ) → n < u32_mod → std.parse_u32 (std.to_string n) ≡ some n
  pub print_digits : (n : ℕ) → all_digits (std.to_string n) ≡ true
  pub trim_gain : (n : ℕ) → std.trim (gain_text std n) ≡ gain_text std n
  pub trim_unit : (n : ℕ) → std.trim_end_matches (gain_text std n) " dB" ≡ std.format_two_digits n
  pub trim_no_unit :
      (n : ℕ) → std.trim_end_matches (std.format_two_digits n) "dB" ≡ std.format_two_digits n

lacks-all_digits : (c : ℕ) (s : String) → c < 0x30 → all_digits s ≡ true → lacks c s ≡ true
unfolding lacks all_digits
lacks-all_digits c [] l h = refl
lacks-all_digits c (ch ∷ s) l h = ground (arith, lacks-all_digits c s l, h)

pub before-lacks : (c : ℕ) (s : String) → lacks c s ≡ true → before c s ≡ s
unfolding before lacks
before-lacks c [] h = refl
before-lacks c (ch ∷ s) h = go (code ch == c) refl (before-lacks c s)
  where
    go :
        (b : Bool)
        → (code ch == c) ≡ b
        → (lacks c s ≡ true → before c s ≡ s)
        → (if b then [] else ch ∷ before c s) ≡ ch ∷ s
    go true e more = absurd (ground (arith, e, h))
    go false e more = ap (λ (x : String). ch ∷ x) (more (ground (arith, e, h)))

pub before-cut :
    (c : ℕ) (s t : String) (sep : Char)
    → code sep ≡ c
    → lacks c s ≡ true
    → before c (String.◌++◌ s (sep ∷ t)) ≡ s
unfolding before lacks
before-cut c [] t sep at h = ap (before c) (nil-append (sep ∷ t)) ∙ ground (arith, at)
before-cut c (ch ∷ s) t sep at h =
    ap (before c) (cons-append ch s (sep ∷ t)) ∙ go (code ch == c) refl (before-cut c s t sep at)
  where
    go :
        (b : Bool)
        → (code ch == c) ≡ b
        → (lacks c s ≡ true → before c (String.◌++◌ s (sep ∷ t)) ≡ s)
        → (if b then [] else ch ∷ before c (String.◌++◌ s (sep ∷ t))) ≡ ch ∷ s
    go true e more = absurd (ground (arith, e, h))
    go false e more = ap (λ (x : String). ch ∷ x) (more (ground (arith, e, h)))

-- `front` is the text in front of the first `c` of a text, or the whole text if it has none.
abbrev pub IsFront : ℕ → String → String → Type 0
IsFront c front s =
    (lacks c front ≡ true)
    × ((front ≡ s)
        ⊎ ((sep : Char) × (t : String) × (code sep ≡ c) × (s ≡ String.◌++◌ front (sep ∷ t))))

IsFront-cons :
    (c : ℕ) (ch : Char) (front s : String)
    → (code ch == c) ≡ false
    → IsFront c front s
    → IsFront c (ch ∷ front) (ch ∷ s)
unfolding lacks
IsFront-cons c ch front s e (free, whole) = (ground (arith, e, free), go whole)
  where
    go :
        (front ≡ s)
          ⊎ ((sep : Char) × (t : String) × (code sep ≡ c) × (s ≡ String.◌++◌ front (sep ∷ t)))
        → (ch ∷ front ≡ ch ∷ s)
          ⊎ ((sep : Char) × (t : String) × (code sep ≡ c)
              × (ch ∷ s ≡ String.◌++◌ (ch ∷ front) (sep ∷ t)))
    go (inl p) = inl (ap (λ (x : String). ch ∷ x) p)
    go (inr (sep, t, at, p)) =
        inr (sep, t, at, ap (λ (x : String). ch ∷ x) p ∙ sym (cons-append ch front (sep ∷ t)))

pub before-IsFront : (c : ℕ) (s : String) → IsFront c (before c s) s
unfolding before lacks
before-IsFront c [] = (refl, inl refl)
before-IsFront c (ch ∷ s) = go (code ch == c) refl (before-IsFront c s)
  where
    go :
        (b : Bool)
        → (code ch == c) ≡ b
        → IsFront c (before c s) s
        → IsFront c (if b then [] else ch ∷ before c s) (ch ∷ s)
    go true e f = (refl, inr (ch, s, ground (arith, e), sym (nil-append (ch ∷ s))))
    go false e f = IsFront-cons c ch (before c s) s e f

-- A number that fits a `u32`, if there is one.
abbrev pub FitsU32 : Option ℕ → Type 0
FitsU32 none = Unit
FitsU32 (some n) = n < u32_mod

-- The numbers of some metadata are `u32`s, as its type says.
pub record NumbersFit (m : AudioMeta) : Type 0 where
  pub year : FitsU32 m.year
  pub track : FitsU32 m.track
  pub track_total : FitsU32 m.track_total
  pub disc : FitsU32 m.disc
  pub disc_total : FitsU32 m.disc_total

-- The date that a tag keeps: the date, and only without one the year in digits.
abbrev pub kept_date : StdText → Option String → Option ℕ → Option String
kept_date std (some date) year = some date
kept_date std none (some year) = some (std.to_string year)
kept_date std none none = none

-- The year that a tag keeps: without a date it is the year that was given; of a date it is the
-- number in front of the first dash, if that is one.
abbrev pub KeptYear : StdText → Option String → Option ℕ → Option ℕ → Type 0
KeptYear std none given year = year ≡ given
KeptYear std (some date) given year =
    (front : String) × IsFront 0x2D front date × (std.parse_u32 front ≡ year)

module _ (std : StdText) (laws : StdTextLaws std) where
  pub lacks-to_string : (c n : ℕ) → c < 0x30 → lacks c (std.to_string n) ≡ true
  lacks-to_string c n l = lacks-all_digits c (std.to_string n) l (laws.print_digits n)

  pub number_kept : (o : Option ℕ) → FitsU32 o → bind std.parse_u32 (fmap std.to_string o) ≡ o
  number_kept none fits = refl
  number_kept (some n) fits = laws.parse-print n fits

  pub gain_kept :
      (o : Option ℕ)
      → bind (parse_replaygain_value std) (fmap (gain_text std) o)
        ≡ bind std.parse_f32 (fmap std.format_two_digits o)
  unfolding parse_replaygain_value
  gain_kept none = refl
  gain_kept (some n) = ap std.parse_f32 (
      ap (λ (x : String). std.trim_end_matches (std.trim_end_matches x " dB") "dB")
        (laws.trim_gain n)
      ∙ (ap (λ (x : String). std.trim_end_matches x "dB") (laws.trim_unit n) ∙ laws.trim_no_unit n))

  pub kept_date-eq :
      (date : Option String) (year : Option ℕ)
      → or_else date (fmap std.to_string year) ≡ kept_date std date year
  kept_date-eq (some date) year = refl
  kept_date-eq none (some year) = refl
  kept_date-eq none none = refl

  pub year_kept :
      (date : Option String) (given : Option ℕ)
      → FitsU32 given
      → KeptYear std date given (bind (year_of std) (or_else date (fmap std.to_string given)))
  unfolding year_of
  year_kept (some date) given fits = (before 0x2D date, before-IsFront 0x2D date, refl)
  year_kept none none fits = refl
  year_kept none (some n) fits =
      ap std.parse_u32 (before-lacks 0x2D (std.to_string n) (lacks-to_string 0x2D n (omega arith)))
      ∙ laws.parse-print n fits
