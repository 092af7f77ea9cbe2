-- ===== src/Cache/Tree.antt =====
-- `VirtualTree` of crates/musicfs-cache/src/tree.rs. A path is its components, of which none is empty
-- or a single dot: `ensure_parents` splits a path's text at the slashes, where `Path` drops dots.
pub mod Text
pub mod Grow
pub mod Shrink
pub mod Move
pub mod Sound
pub mod Prefix
use music_fs.Base.{
  ℕ, zero, suc, ◌+◌, Bool, true, false, not, ◌&&◌, Option, none, some, List, [], ◌∷◌, ◌++◌, map,
  String, if◌then◌else◌, ltb, leb, ◌-◌, ◌*◌, same, nat_eq, string_eq, keep, length, arith,
}
use music_fs.Base.Dict.{lookup, insert, remove}
use music_fs.Base.Words.{add_u64, u64_mod}
use music_fs.Core.Types.{
  FileId, FilePath, FilePath_eq, VirtualPath, SystemTime, after_epoch, before_epoch,
}

abbrev pub Inode : Type 0
Inode = ℕ

abbrev pub root_inode : Inode
root_inode = 1

pub record DirNode : Type 0 where
  pub inode : Inode
  pub parent : Inode
  pub name : String
  pub children : List (String × Inode)
  pub mtime : SystemTime

pub record FileNode : Type 0 where
  pub inode : Inode
  pub name : String
  pub file_id : FileId
  pub size : ℕ
  pub mtime : SystemTime

pub data VirtualNode : Type 0 where
  directory : DirNode → VirtualNode
  file : FileNode → VirtualNode

-- Durations in nanoseconds.
pub record RefreshPolicy : Type 0 where
  pub ttl : ℕ
  pub refresh_on_access : Bool
  pub background_interval : Option ℕ

abbrev pub default_policy : RefreshPolicy
default_policy = record {
  ttl = 300_000_000_000;
  refresh_on_access = false;
  background_interval = none;
}

pub record VirtualTree : Type 0 where
  pub nodes : List (Inode × VirtualNode)
  pub path_to_inode : List (VirtualPath × Inode)
  pub next_inode : Inode
  pub last_refresh : SystemTime
  pub refresh_policy : RefreshPolicy

abbrev pub rooted_path : List String → VirtualPath
rooted_path components = record { rooted = true; components = components }

abbrev pub root : VirtualPath
root = rooted_path []

unfoldable pub with_policy : SystemTime → RefreshPolicy → VirtualTree
with_policy now policy = record {
  nodes =
      (
        root_inode,
        directory (record {
          inode = root_inode;
          parent = root_inode;
          name = "";
          children = [];
          mtime = now;
        }),
      )
      ∷ [];
  path_to_inode = (root, root_inode) ∷ [];
  next_inode = root_inode + 1;
  last_refresh = now;
  refresh_policy = policy;
}

-- `inode()`, `name()` and `is_dir()` of a node
unfoldable pub node_inode : VirtualNode → Inode
node_inode (directory d) = d.inode
node_inode (file f) = f.inode

abbrev pub node_name : VirtualNode → String
node_name (directory d) = d.name
node_name (file f) = f.name

unfoldable pub is_dir : VirtualNode → Bool
is_dir (directory d) = true
is_dir (file f) = false

-- The components but the last, and the last.
unfoldable pub init : List String → List String
init [] = []
init (c ∷ []) = []
init (c ∷ d ∷ cs) = c ∷ init (d ∷ cs)

unfoldable pub last_or : String → List String → String
last_or default [] = default
last_or default (c ∷ cs) = last_or c cs

-- `Path::parent`: a path without components has none.
unfoldable pub parent : VirtualPath → Option VirtualPath
unfolding init
parent p = elim p.components [ [] ↦ none | c ∷ cs ↦ some (record p { components = init (c ∷ cs) }) ]

-- The parent, or the root where there is none.
unfoldable pub parent_or_root : VirtualPath → VirtualPath
unfolding parent
parent_or_root p = elim (parent p) [ none ↦ root | some q ↦ q ]

-- The parent, or the root where there is none or where its text is empty.
unfoldable pub parent_dir : VirtualPath → VirtualPath
unfolding parent
parent_dir p = elim (parent p) [
  | none ↦ root
  | some q ↦ elim q.components [ [] ↦ root | _ ∷ _ ↦ q ]
]

-- The last component, or the empty text.
unfoldable pub last_name : VirtualPath → String
unfolding last_or
last_name p = last_or "" p.components

unfoldable pub ends_in_dots : VirtualPath → Bool
unfolding last_name
ends_in_dots p = same (last_name p) ".."

-- `Path::file_name`, or the empty name: a path that ends in `..` has no file name.
unfoldable pub file_name : VirtualPath → String
unfolding last_name ends_in_dots
file_name p = if ends_in_dots p then "" else last_name p

unfoldable pub get_node : VirtualTree → Inode → Option VirtualNode
get_node t inode = lookup inode t.nodes

unfoldable pub get_by_path : VirtualTree → VirtualPath → Option VirtualNode
get_by_path t path = elim (lookup path t.path_to_inode) [
  | none ↦ none
  | some inode ↦ lookup inode t.nodes
]

-- The directory of an inode, if it is one.
unfoldable pub dir_of : List (Inode × VirtualNode) → Inode → Option DirNode
dir_of nodes inode = elim (lookup inode nodes) [
  | none ↦ none
  | some node ↦ elim node [ directory d ↦ some d | file f ↦ none ]
]

unfoldable pub lookup_name : VirtualTree → Inode → String → Option Inode
lookup_name t inode name = elim (dir_of t.nodes inode) [
  | none ↦ none
  | some d ↦ lookup name d.children
]

-- Whether there is a node of the inode, and it is a directory.
unfoldable pub is_dir_at : List (Inode × VirtualNode) → Inode → Bool
is_dir_at nodes inode = elim (lookup inode nodes) [ none ↦ false | some node ↦ is_dir node ]

unfoldable pub readdir : VirtualTree → Inode → Option (List (String × Inode × Bool))
unfolding is_dir_at
readdir t inode = elim (dir_of t.nodes inode) [
  | none ↦ none
  | some d ↦ some (map (λ e. (e.0, e.1, is_dir_at t.nodes e.1)) d.children)
]

-- The first path of an inode.
unfoldable pub path_of_inode : List (VirtualPath × Inode) → Inode → Option VirtualPath
path_of_inode [] inode = none
path_of_inode ((path, i) ∷ paths) inode =
    let rest = path_of_inode paths inode in if same i inode then some path else rest

unfoldable pub find_parent_by_path_lookup : VirtualTree → Inode → Option Inode
unfolding parent
find_parent_by_path_lookup t inode = elim (path_of_inode t.path_to_inode inode) [
  | none ↦ none
  | some path ↦ elim (parent path) [ none ↦ none | some p ↦ lookup p t.path_to_inode ]
]

unfoldable pub get_parent : VirtualTree → Inode → Option Inode
get_parent t inode = elim (lookup inode t.nodes) [
  | none ↦ none
  | some node ↦ elim node [
    | directory d ↦ some d.parent
    | file f ↦ find_parent_by_path_lookup t inode
  ]
]

unfoldable pub file_count : VirtualTree → ℕ
unfolding is_dir
file_count t = length (keep (λ e. not (is_dir e.1)) t.nodes)

unfoldable pub dir_count : VirtualTree → ℕ
unfolding is_dir
dir_count t = length (keep (λ e. is_dir e.1) t.nodes)

-- The directory of an inode is changed, if it is one: `nodes.get_mut`.
unfoldable pub change_dir :
    Inode → (DirNode → DirNode) → List (Inode × VirtualNode) → List (Inode × VirtualNode)
change_dir inode f nodes = elim (dir_of nodes inode) [
  | none ↦ nodes
  | some d ↦ insert inode (directory (f d)) nodes
]

abbrev pub add_child : String → Inode → DirNode → DirNode
add_child name inode d = record d { children = insert name inode d.children }

abbrev pub remove_child : String → DirNode → DirNode
remove_child name d = record d { children = remove name d.children }

-- `alloc_inode`: the counter is a `u64` that wraps.
unfoldable pub after_alloc : VirtualTree → Inode
after_alloc t = add_u64 t.next_inode 1

unfoldable pub mark_refreshed : SystemTime → VirtualTree → VirtualTree
mark_refreshed now t = record t { last_refresh = now }

-- By the text that the map holds for the path.
abbrev pub is_root_path : (VirtualPath → String) → VirtualPath × Inode → Bool
is_root_path texts e = same (texts e.0) "/"

-- Only the root is left, without children; inodes are not given out again.
unfoldable pub force_refresh : (VirtualPath → String) → SystemTime → VirtualTree → VirtualTree
force_refresh texts now t = record t {
  nodes =
      change_dir root_inode (λ d. record d { children = [] })
        (keep (λ e. same e.0 root_inode) t.nodes);
  path_to_inode = keep (is_root_path texts) t.path_to_inode;
  last_refresh = now;
}

-- `t.elapsed()` at an instant: none where the instant is before.
unfoldable pub elapsed : SystemTime → SystemTime → Option ℕ
elapsed (after_epoch now) (after_epoch t) = if leb t now then some (now - t) else none
elapsed (after_epoch now) (before_epoch t) = some (now + t + 1)
elapsed (before_epoch now) (after_epoch t) = none
elapsed (before_epoch now) (before_epoch t) = if leb now t then some (t - now) else none

abbrev pub duration_max : ℕ
duration_max = (u64_mod - 1) * 1_000_000_000 + 999_999_999

unfoldable pub needs_refresh : SystemTime → VirtualTree → Bool
unfolding elapsed
needs_refresh now t =
    ltb t.refresh_policy.ttl
      (elim (elapsed now t.last_refresh) [ none ↦ duration_max | some d ↦ d ])
