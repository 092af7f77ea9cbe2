-- ===== src/Core/Resolver.antt =====
-- `PathResolver` of crates/musicfs-core/src/resolver.rs.
use Prim.Native.Char.{Char, char, code}
use Prim.Native.String
use Prim.Native.String.{[], ◌∷◌, count}
use text.Mathlib.Text.{starts_with}
use music_fs.Base.{
  [], ◌∷◌, inl, inr, Bool-cases, map, List, sym, ◌∙◌, ℕ, zero, suc, ◌-◌, ◌≡◌, refl, Bool, true,
  false, Option, none, some, String, if◌then◌else◌, ltb, ◌==◌, arith,
}
use music_fs.Core.Types.{AudioMeta}

-- What it calls of the standard library: printing a number, `trim`, and the case of letters.
pub record PathText : Type 0 where
  pub to_string : ℕ → String
  pub trim : String → String
  pub to_lowercase : String → String
  pub to_uppercase : String → String

pub record PathTemplate : Type 0 where
  pub pattern : String
  pub fallback_artist : String
  pub fallback_album : String
  pub fallback_title : String
  pub fallback_year : String

abbrev pub default_template : PathTemplate
default_template = record {
  pattern = "$artist/$album ($year) [$format_upper]/$track - $title.$format";
  fallback_artist = "Unknown Artist";
  fallback_album = "Unknown Album";
  fallback_title = "Unknown Track";
  fallback_year = "Unknown";
}

-- The characters that are replaced: / \ : * ? " < > | and NUL
unfoldable pub is_special : ℕ → Bool
is_special c =
    if c == 0x2F
    then true
    else if c == 0x5C
    then true
    else if c == 0x3A
    then true
    else if c == 0x2A
    then true
    else if c == 0x3F
    then true
    else if c == 0x22
    then true
    else if c == 0x3C
    then true
    else if c == 0x3E
    then true
    else if c == 0x7C
    then true
    else c == 0

abbrev underscore : Char
underscore = char 0x5F tt

unfoldable pub clean_chars : String → String
unfolding is_special
clean_chars [] = []
clean_chars (ch ∷ s) =
    let rest = clean_chars s in if is_special (code ch) then underscore ∷ rest else ch ∷ rest

-- `s.replace(from, to)`, for a text `from` that is not empty; `skip` characters belong to an
-- occurrence that was replaced already.
unfoldable pub replace_from : ℕ → String → String → String → String
replace_from skip from to [] = []
replace_from (suc skip) from to (ch ∷ s) = replace_from skip from to s
replace_from zero from to (ch ∷ s) = elim (starts_with (ch ∷ s) from) [
  | true ↦ String.◌++◌ to (replace_from (count from - 1) from to s)
  | false ↦ ch ∷ replace_from zero from to s
]

abbrev pub or_text : String → Option String → String
or_text d none = d
or_text d (some s) = s

abbrev pub or_number : ℕ → Option ℕ → ℕ
or_number d none = d
or_number d (some n) = n

module _ (std : PathText) where
  unfoldable pub sanitize_path_component : String → String
  unfolding clean_chars
  sanitize_path_component s = std.trim (clean_chars s)

  -- `{:02}`
  unfoldable pub two_digits : ℕ → String
  two_digits n = if ltb n 10 then String.◌++◌ "0" (std.to_string n) else std.to_string n

  abbrev pub year_text : PathTemplate → AudioMeta → String
  year_text t m = elim m.year [ none ↦ t.fallback_year | some y ↦ std.to_string y ]

  -- The text that `resolve` makes a path of.
  unfoldable pub resolve : PathTemplate → AudioMeta → String → String
  unfolding sanitize_path_component replace_from two_digits
  resolve t m extension =
      let artist = sanitize_path_component (or_text t.fallback_artist m.artist) in
      let album = sanitize_path_component (or_text t.fallback_album m.album) in
      let title = sanitize_path_component (or_text t.fallback_title m.title) in
      let genre = sanitize_path_component (or_text "Unknown" m.genre) in
      let s1 = replace_from 0 "$artist" artist t.pattern in
      let s2 = replace_from 0 "$album" album s1 in
      let s3 = replace_from 0 "$title" title s2 in
      let s4 = replace_from 0 "$track" (two_digits (or_number 0 m.track)) s3 in
      let s5 = replace_from 0 "$disc" (std.to_string (or_number 1 m.disc)) s4 in
      let s6 = replace_from 0 "$year" (year_text t m) s5 in
      let s7 = replace_from 0 "$genre" genre s6 in
      let s8 = replace_from 0 "$format_upper" (std.to_uppercase extension) s7 in
      replace_from 0 "$format" (std.to_lowercase extension) s8

unfoldable pub any_char : (ℕ → Bool) → String → Bool
any_char p [] = false
any_char p (ch ∷ s) = let rest = any_char p s in if p (code ch) then true else rest

-- Trimming takes characters away and brings none.
pub record PathTextLaws (std : PathText) : Type 0 where
  pub any_char-trim :
      (p : ℕ → Bool) (s : String) → any_char p s ≡ false → any_char p (std.trim s) ≡ false

-- / \ : * ? " < > | and NUL
abbrev pub forbidden_codes : List ℕ
forbidden_codes = 0x2F ∷ 0x5C ∷ 0x3A ∷ 0x2A ∷ 0x3F ∷ 0x22 ∷ 0x3C ∷ 0x3E ∷ 0x7C ∷ 0 ∷ []

abbrev pub is_one_of : List ℕ → ℕ → Bool
is_one_of [] c = false
is_one_of (d ∷ ds) c = if c == d then true else is_one_of ds c

abbrev pub is_forbidden : ℕ → Bool
is_forbidden = is_one_of forbidden_codes

is_special-is_forbidden : (c : ℕ) → is_special c ≡ is_forbidden c
unfolding is_special
is_special-is_forbidden c = ground arith

unfoldable pub codes : String → List ℕ
codes [] = []
codes (ch ∷ s) = code ch ∷ codes s

abbrev pub underscored : ℕ → ℕ
underscored c = if is_forbidden c then 0x5F else c

codes-clean_chars : (s : String) → codes (clean_chars s) ≡ map underscored (codes s)
unfolding codes clean_chars
codes-clean_chars [] = refl
codes-clean_chars (ch ∷ s) =
    let same_test = is_special-is_forbidden (code ch) in
    elim (Bool-cases (is_special (code ch))) [
      | inl e ↦
          let f : is_forbidden (code ch) ≡ true = sym same_test ∙ e in
          ground (arith, e, f, codes-clean_chars s)
      | inr e ↦
          let f : is_forbidden (code ch) ≡ false = sym same_test ∙ e in
          ground (arith, e, f, codes-clean_chars s)
    ]

any_char-clean_chars : (s : String) → any_char is_forbidden (clean_chars s) ≡ false
unfolding any_char clean_chars
any_char-clean_chars [] = refl
any_char-clean_chars (ch ∷ s) = go (is_special (code ch)) refl (any_char-clean_chars s)
  where
    go :
        (b : Bool)
        → is_special (code ch) ≡ b
        → any_char is_forbidden (clean_chars s) ≡ false
        → any_char is_forbidden (if b then underscore ∷ clean_chars s else ch ∷ clean_chars s)
          ≡ false
    go true e ih = ih
    go false e ih =
        let kept : is_forbidden (code ch) ≡ false = sym (is_special-is_forbidden (code ch)) ∙ e in
        ground (arith, kept, ih)

-- A component of a path that was sanitized holds no slash, backslash, colon, asterisk, question
-- mark, double quote, angle bracket, bar or NUL, whatever the tag held, and is what trimming leaves
-- of the tag with an underscore in place of each of these and every other character kept; if
-- trimming brings no new characters.
pub any_char-sanitize_path_component :
    (std : PathText)
    → PathTextLaws std
    → (s : String)
    → (any_char is_forbidden (sanitize_path_component std s) ≡ false)
      × ((u : String) × (sanitize_path_component std s ≡ std.trim u)
          × (codes u ≡ map underscored (codes s)))
unfolding sanitize_path_component
any_char-sanitize_path_component std laws s = (
  laws.any_char-trim is_forbidden (clean_chars s) (any_char-clean_chars s),
  (clean_chars s, refl, codes-clean_chars s),
)
