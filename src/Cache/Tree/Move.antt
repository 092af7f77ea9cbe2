-- ===== src/Cache/Tree/Move.antt =====
-- The operations of the tree that rename.
use Prim.Native.String
use Prim.Native.String.{slice, len}
use text.Mathlib.Text.{starts_with}
use music_fs.Base.{
  ℕ, Bool, none, some, List, [], ◌∷◌, String, Result, ok, err, if◌then◌else◌, length, nat_eq,
  string_eq,
}
use music_fs.Base.Dict.{lookup, insert, remove, contains_key}
use music_fs.Core.Types.{FilePath_eq, VirtualPath}
use music_fs.Cache.Tree.{
  Inode, DirNode, VirtualNode, directory, file, VirtualTree, parent_or_root, parent_dir, file_name,
  is_dir, is_dir_at, change_dir, add_child,
}
use music_fs.Cache.Tree.Text.{of_str}
use music_fs.Cache.Tree.Grow.{
  RenameError, source_not_found, target_exists, parent_not_found, is_directory, not_directory,
}
use music_fs.Cache.Tree.Shrink.{detach, with_prefix}

-- The file of an inode gets a name.
unfoldable pub name_file : Inode → String → List (Inode × VirtualNode) → List (Inode × VirtualNode)
name_file inode name nodes = elim (lookup inode nodes) [
  | none ↦ nodes
  | some node ↦ elim node [
    | directory d ↦ nodes
    | file f ↦ insert inode (file (record f { name = name })) nodes
  ]
]

-- What `rename_file` does once nothing stands against it.
unfoldable pub move_file : VirtualPath → VirtualPath → Inode → Inode → VirtualTree → VirtualTree
unfolding detach name_file change_dir
move_file old_path new_path old_inode new_parent t =
    let paths = remove old_path t.path_to_inode in
    record t {
      path_to_inode = insert new_path old_inode paths;
      nodes = change_dir new_parent (add_child (file_name new_path) old_inode) (
          name_file old_inode (file_name new_path)
            (detach (parent_or_root old_path) (file_name old_path) paths t.nodes));
    }

unfoldable pub rename_file :
    VirtualPath → VirtualPath → VirtualTree → VirtualTree × Result RenameError (Unit {0})
unfolding move_file
rename_file old_path new_path t = elim (lookup old_path t.path_to_inode) [
  | none ↦ (t, err source_not_found)
  | some old_inode ↦
      if contains_key new_path t.path_to_inode
      then (t, err target_exists)
      else elim (lookup old_inode t.nodes) [
        | none ↦ (t, err source_not_found)
        | some node ↦
            if is_dir node
            then (t, err is_directory)
            else elim (lookup (parent_dir new_path) t.path_to_inode) [
              | none ↦ (t, err parent_not_found)
              | some new_parent ↦
                  if is_dir_at t.nodes new_parent
                  then (move_file old_path new_path old_inode new_parent t, ok tt)
                  else (t, err parent_not_found)
            ]
      ]
]

-- The loop over the paths to update: the prefix of the text of each, as the map held it, is
-- replaced.
unfoldable pub update_paths :
    (VirtualPath → String)
    → String
    → String
    → List (VirtualPath × Inode)
    → List (VirtualPath × Inode)
    → List (VirtualPath × Inode)
unfolding of_str
update_paths texts old_prefix new_prefix [] paths = paths
update_paths texts old_prefix new_prefix ((path, inode) ∷ more) paths =
    let text = texts path in
    let renamed = of_str (String.◌++◌ new_prefix (slice text (len old_prefix) (len text))) in
    update_paths texts old_prefix new_prefix more (insert renamed inode (remove path paths))

abbrev rename_dir : String → Inode → DirNode → DirNode
rename_dir name parent_inode d = record d { name = name; parent = parent_inode }

unfoldable pub move_directory :
    (VirtualPath → String) → String → String → Inode → Inode → VirtualTree → VirtualTree × ℕ
unfolding update_paths with_prefix detach change_dir of_str
move_directory texts old_text new_text old_inode new_parent t =
    let old_path = of_str old_text in
    let new_path = of_str new_text in
    let moved = with_prefix texts old_text t.path_to_inode in
    let paths = update_paths texts old_text new_text moved t.path_to_inode in
    (
      record t {
        path_to_inode = paths;
        nodes = change_dir new_parent (add_child (file_name new_path) old_inode) (
            change_dir old_inode (rename_dir (file_name new_path) new_parent)
              (detach (parent_or_root old_path) (file_name old_path) paths t.nodes));
      },
      length moved,
    )

unfoldable pub rename_directory :
    (VirtualPath → String) → String → String → VirtualTree → VirtualTree × Result RenameError ℕ
unfolding move_directory of_str
rename_directory texts old_text new_text t =
    let old_path = of_str old_text in
    let new_path = of_str new_text in
    elim (lookup old_path t.path_to_inode) [
      | none ↦ (t, err source_not_found)
      | some old_inode ↦
          if is_dir_at t.nodes old_inode
          then if contains_key new_path t.path_to_inode
            then (t, err target_exists)
            else elim (lookup (parent_dir new_path) t.path_to_inode) [
              | none ↦ (t, err parent_not_found)
              | some new_parent ↦
                  if is_dir_at t.nodes new_parent
                  then (
                    (move_directory texts old_text new_text old_inode new_parent t).0,
                    ok (move_directory texts old_text new_text old_inode new_parent t).1,
                  )
                  else (t, err parent_not_found)
            ]
          else (t, err not_directory)
    ]

-- `"/.trash".starts_with` makes the second test idle.
unfoldable pub is_trash_path : String → Bool
is_trash_path text = starts_with text "/.trash"
