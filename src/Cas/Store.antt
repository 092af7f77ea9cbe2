-- ===== src/Cas/Store.antt =====
-- `CasStore` of crates/musicfs-cas/src/store.rs. The directory of chunks is a map from paths to
-- contents, the sled index a map from hashes to locations; calls are taken one at a time.
pub mod Paths
pub mod Contents
pub mod Sizes
use music_fs.Base.{
  nat_eq, list_eq, ℕ, zero, suc, ◌+◌, ◌*◌, Bool, ◌&&◌, Option, none, some, List, [], ◌∷◌, ◌++◌,
  same, ltb, leb, if◌then◌else◌, length, Result, ok, err,
}
use music_fs.Base.Dict.{lookup, insert, remove, contains_key}
use music_fs.Base.Slices.{range}
use music_fs.Base.Words.{as_u32, add_u64, sub_u64}
use music_fs.Cas.Hash.{Hashing, ChunkHash, ChunkHash_eq, from_bytes, as_hex}

-- A path is the list of its components, a component its bytes.
abbrev pub ChunkPath : Type 0
ChunkPath = List (List ℕ)

pub record ChunkLocation : Type 0 where
  pub path : ChunkPath
  pub size : ℕ

pub record CasConfig : Type 0 where
  pub chunks_dir : ChunkPath
  pub max_size : ℕ
  pub shard_levels : ℕ

pub record CasStore : Type 0 where
  pub config : CasConfig
  pub files : List (ChunkPath × List ℕ)
  pub index : List (ChunkHash × ChunkLocation)
  pub current_size : ℕ

pub data CasError : Type 0 where
  io sled serialization : CasError
  not_found : List ℕ → CasError
  integrity_error : List ℕ → List ℕ → CasError
  store_full : ℕ → ℕ → CasError

-- Which calls of the operating system and of sled fail during one `put`. A write that fails leaves
-- no file, or a file with some other content.
pub data WriteResult : Type 0 where
  written : WriteResult
  write_failed : Option (List ℕ) → WriteResult

pub record PutFaults : Type 0 where
  pub create_dir_fails : Bool
  pub write : WriteResult
  pub serialize_fails : Bool
  pub index_fails : Bool

pub record DeleteFaults : Type 0 where
  pub metadata_fails : Bool
  pub remove_file_fails : Bool
  pub index_fails : Bool

-- The sum of the lengths of the files, as `calculate_size` walks the directory.
unfoldable pub calculate_size : List (ChunkPath × List ℕ) → ℕ
calculate_size [] = 0
calculate_size ((path, content) ∷ files) = length content + calculate_size files

-- The loop over the shard levels; `levels` of them are left.
unfoldable pub shards : ℕ → ℕ → List ℕ → ChunkPath
shards zero i hex = []
shards (suc levels) i hex =
    let start = i * 2 in
    let end = start + 2 in
    let rest = shards levels (i + 1) hex in
    if leb end (length hex) then range start end hex ∷ rest else rest

-- What sled returns for the first opening, for the repair, and for the opening after the index
-- was removed; removing it may fail.
pub record Sled : Type 0 where
  pub first : Option (List (ChunkHash × ChunkLocation))
  pub repaired : Option (List (ChunkHash × ChunkLocation))
  pub remove_fails : Bool
  pub recreated : Option (List (ChunkHash × ChunkLocation))

unfoldable pub open_index : Sled → Result CasError (List (ChunkHash × ChunkLocation))
open_index s = elim s.first [
  | some index ↦ ok index
  | none ↦ elim s.repaired [
    | some index ↦ ok index
    | none ↦
        if s.remove_fails
        then err io
        else elim s.recreated [ some index ↦ ok index | none ↦ err sled ]
  ]
]

unfoldable pub open_store :
    Bool → Sled → CasConfig → List (ChunkPath × List ℕ) → Result CasError CasStore
unfolding open_index
open_store create_dir_fails s config files =
    if create_dir_fails then err io else elim (open_index s) [
      | err e ↦ err e
      | ok index ↦ ok (record {
        config = config;
        files = files;
        index = index;
        current_size = calculate_size files;
      })
    ]

unfoldable pub over_limit : CasStore → List ℕ → Bool
over_limit c content =
    ltb 0 c.config.max_size && ltb c.config.max_size (add_u64 c.current_size (length content))

-- What a failed write leaves at its path.
unfoldable pub leave : ChunkPath → Option (List ℕ) → CasStore → CasStore
leave path none c = c
leave path (some left) c = record c { files = insert path left c.files }

-- The part of `put` behind its checks.
module _ (h : Hashing) where
  unfoldable pub chunk_path : CasConfig → ChunkHash → ChunkPath
  unfolding shards
  chunk_path config hash =
      let hex = as_hex h hash in
      config.chunks_dir ++ (shards config.shard_levels 0 hex ++ (hex ∷ []))

  unfoldable pub store_chunk :
      PutFaults → CasStore → ChunkHash → ChunkPath → List ℕ → CasStore × Result CasError ChunkHash
  unfolding leave
  store_chunk f c hash path content = if f.create_dir_fails then (c, err io) else elim f.write [
    | write_failed left ↦ (leave path left c, err io)
    | written ↦
        let written_c = record c { files = insert path content c.files } in
        if f.serialize_fails
        then (written_c, err serialization)
        else if f.index_fails
        then (written_c, err sled)
        else (
          record written_c {
            index = insert hash (record { path = path; size = as_u32 (length content) }) c.index;
            current_size = add_u64 c.current_size (length content);
          },
          ok hash,
        )
  ]

  unfoldable pub put : PutFaults → CasStore → List ℕ → CasStore × Result CasError ChunkHash
  unfolding store_chunk over_limit
  put f c content =
      let hash = from_bytes h content in
      let path = chunk_path c.config hash in
      if contains_key path c.files
      then (c, ok hash)
      else if over_limit c content
      then (c, err (store_full c.current_size c.config.max_size))
      else store_chunk f c hash path content

  unfoldable pub verify_integrity : ChunkHash → List ℕ → Result CasError (Unit {0})
  verify_integrity expected content =
      let actual = from_bytes h content in
      if same actual expected
      then ok tt
      else err (integrity_error (as_hex h expected) (as_hex h actual))

  -- `read_fails`: whether reading the file of a hash fails.
  unfoldable pub get : (ChunkHash → Bool) → CasStore → ChunkHash → Result CasError (List ℕ)
  unfolding verify_integrity
  get read_fails c hash = elim (lookup (chunk_path c.config hash) c.files) [
    | none ↦ err (not_found (as_hex h hash))
    | some content ↦
        if read_fails hash
        then err io
        else if ltb 0 c.config.max_size
        then elim (verify_integrity hash content) [ ok _ ↦ ok content | err e ↦ err e ]
        else ok content
  ]

  unfoldable pub exists : CasStore → ChunkHash → Bool
  exists c hash = contains_key (chunk_path c.config hash) c.files

  unfoldable pub delete :
      DeleteFaults → CasStore → ChunkHash → CasStore × Result CasError (Unit {0})
  delete f c hash =
      let path = chunk_path c.config hash in
      elim (lookup path c.files) [
        | none ↦ (c, ok tt)
        | some content ↦
            let removed = record c { files = remove path c.files } in
            if f.metadata_fails
            then (c, err io)
            else if f.remove_file_fails
            then (c, err io)
            else if f.index_fails
            then (removed, err sled)
            else (
              record removed {
                index = remove hash c.index;
                current_size = sub_u64 c.current_size (length content);
              },
              ok tt,
            )
      ]

-- `list_chunks`: the keys of the index that are eight bytes long.
unfoldable pub list_chunks : List (ChunkHash × ChunkLocation) → List ChunkHash
list_chunks [] = []
list_chunks ((k, location) ∷ index) =
    let rest = list_chunks index in if same (length k.bytes) 8 then k ∷ rest else rest
