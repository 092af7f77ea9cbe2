-- ===== src/Cache/Tree/Text.antt =====
-- A `VirtualPath` of crates/musicfs-core/src/types.rs holds the text that it was made of, and two
-- of them are equal if the components of their texts are. Where the code reads that text, the
-- operations take it; elsewhere a path is its components. The canonical text of a path is one of
-- the texts it can have.
use Prim.Native.Char.{code}
use Prim.Native.String
use Prim.Native.String.{String, [], ◌∷◌}
use music_fs.Base.{Bool, false, List, [], ◌∷◌, if◌then◌else◌, same, string_eq, ◌==◌}
use music_fs.Core.Types.{VirtualPath}

-- A slash in front of each component.
unfoldable pub slashed : List String → String
slashed [] = ""
slashed (c ∷ cs) = String.◌++◌ "/" (String.◌++◌ c (slashed cs))

-- The first slash of a path that is not rooted is left out.
unfoldable pub canonical_text : VirtualPath → String
unfolding slashed
canonical_text p = elim p.components [
  | [] ↦ if p.rooted then "/" else ""
  | c ∷ cs ↦ if p.rooted then slashed (c ∷ cs) else String.◌++◌ c (slashed cs)
]

-- Empty components and `.` are dropped.
abbrev pub add_component : String → List String → List String
add_component c cs = if same c "" then cs else if same c "." then cs else c ∷ cs

-- The components of a text, `cur` of the first one being read already.
unfoldable pub split_from : String → String → List String
split_from cur [] = add_component cur []
split_from cur (ch ∷ s) =
    let closed = add_component cur (split_from "" s) in
    let longer = split_from (String.◌++◌ cur (ch ∷ [])) s in
    if code ch == b'/' then closed else longer

unfoldable pub starts_rooted : String → Bool
starts_rooted [] = false
starts_rooted (ch ∷ s) = code ch == b'/'

-- The path that `VirtualPath::new` of a text equals.
unfoldable pub of_str : String → VirtualPath
unfolding split_from starts_rooted
of_str s = record { rooted = starts_rooted s; components = split_from "" s }
