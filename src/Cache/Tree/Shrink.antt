-- ===== src/Cache/Tree/Shrink.antt =====
-- The operations of the tree that remove nodes.
use text.Mathlib.Text.{starts_with}
use music_fs.Base.{
  Bool, true, false, Option, none, some, List, [], ◌∷◌, String, Result, ok, err, if◌then◌else◌,
  keep, nat_eq, string_eq,
}
use music_fs.Base.Dict.{lookup, remove}
use music_fs.Core.Types.{FileId, FilePath_eq, VirtualPath}
use music_fs.Cache.Tree.{
  Inode, DirNode, VirtualNode, directory, file, VirtualTree, parent_or_root, file_name, is_dir_at,
  dir_of, change_dir, remove_child,
}
use music_fs.Cache.Tree.Text.{of_str}

pub data RemoveError : Type 0 where
  not_found not_empty not_directory : RemoveError

-- The name is taken out of the directory at the parent's path, if there is one.
unfoldable pub detach :
    VirtualPath
    → String
    → List (VirtualPath × Inode)
    → List (Inode × VirtualNode)
    → List (Inode × VirtualNode)
unfolding change_dir
detach parent name paths nodes = elim (lookup parent paths) [
  | none ↦ nodes
  | some parent_inode ↦ change_dir parent_inode (remove_child name) nodes
]

-- Of a directory too the path and the node are removed; then the result is none.
unfoldable pub remove_file : VirtualPath → VirtualTree → VirtualTree × Option FileId
unfolding detach
remove_file path t = elim (lookup path t.path_to_inode) [
  | none ↦ (t, none)
  | some inode ↦
      let paths = remove path t.path_to_inode in
      let nodes = remove inode t.nodes in
      elim (lookup inode t.nodes) [
        | none ↦ (record t { path_to_inode = paths; nodes = nodes }, none)
        | some node ↦ elim node [
          | directory d ↦ (record t { path_to_inode = paths; nodes = nodes }, none)
          | file f ↦ (
            record t {
              path_to_inode = paths;
              nodes = detach (parent_or_root path) f.name paths nodes;
            },
            some f.file_id,
          )
        ]
      ]
]

abbrev no_children : DirNode → Bool
no_children d = elim d.children [ [] ↦ true | _ ∷ _ ↦ false ]

unfoldable pub remove_directory :
    VirtualPath → VirtualTree → VirtualTree × Result RemoveError (Unit {0})
unfolding detach
remove_directory path t = elim (lookup path t.path_to_inode) [
  | none ↦ (t, err not_found)
  | some inode ↦ elim (lookup inode t.nodes) [
    | none ↦ (t, err not_found)
    | some node ↦ elim node [
      | file f ↦ (t, err not_directory)
      | directory d ↦
          if no_children d
          then (
            record t {
              path_to_inode = remove path t.path_to_inode;
              nodes =
                  remove inode
                    (detach (parent_or_root path) (file_name path) t.path_to_inode t.nodes);
            },
            ok tt,
          )
          else (t, err not_empty)
    ]
  ]
]

-- The paths whose text begins with a text; `texts` is the text that the map holds for each path.
unfoldable pub with_prefix :
    (VirtualPath → String) → String → List (VirtualPath × Inode) → List (VirtualPath × Inode)
with_prefix texts prefix = keep (λ e. starts_with (texts e.0) prefix)

-- The file of an inode, if it is one, is put behind the others.
abbrev push_file : List (Inode × VirtualNode) → Inode → List FileId → List FileId
push_file nodes inode rest = elim (lookup inode nodes) [
  | none ↦ rest
  | some node ↦ elim node [ directory d ↦ rest | file f ↦ f.file_id ∷ rest ]
]

-- The loop over the paths to remove.
unfoldable pub remove_each : List (VirtualPath × Inode) → VirtualTree → VirtualTree × List FileId
remove_each [] t = (t, [])
remove_each ((path, inode) ∷ paths) t =
    let (t', files) =
      remove_each paths
        (record t { path_to_inode = remove path t.path_to_inode; nodes = remove inode t.nodes }) in
    (t', push_file t.nodes inode files)

-- What `remove_directory_recursive` does to the directory of a text.
unfoldable pub remove_below :
    (VirtualPath → String) → String → VirtualTree → VirtualTree × List FileId
unfolding remove_each with_prefix detach of_str
remove_below texts text t =
    let path = of_str text in
    let (t', files) = remove_each (with_prefix texts text t.path_to_inode) t in
    (
      record t' { nodes = detach (parent_or_root path) (file_name path) t'.path_to_inode t'.nodes },
      files,
    )

unfoldable pub remove_directory_recursive :
    (VirtualPath → String) → String → VirtualTree → VirtualTree × Result RemoveError (List FileId)
unfolding remove_below of_str
remove_directory_recursive texts text t = elim (lookup (of_str text) t.path_to_inode) [
  | none ↦ (t, err not_found)
  | some inode ↦
      if is_dir_at t.nodes inode
      then ((remove_below texts text t).0, ok (remove_below texts text t).1)
      else (t, err not_directory)
]

unfoldable pub is_directory_empty : VirtualTree → VirtualPath → Option Bool
is_directory_empty t path = elim (lookup path t.path_to_inode) [
  | none ↦ none
  | some inode ↦ elim (dir_of t.nodes inode) [ none ↦ none | some d ↦ some (no_children d) ]
]
