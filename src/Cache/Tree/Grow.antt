-- ===== src/Cache/Tree/Grow.antt =====
-- The operations of the tree that add nodes.
use music_fs.Base.{
  none, some, List, [], ◌∷◌, ◌++◌, String, Result, ok, err, if◌then◌else◌, nat_eq, string_eq,
}
use music_fs.Base.Dict.{lookup, insert, contains_key}
use music_fs.Core.Types.{FileMeta, FilePath_eq, VirtualPath, SystemTime}
use music_fs.Cache.Tree.{
  VirtualNode, Inode, root_inode, rooted_path, directory, file, VirtualTree, init, parent_dir,
  file_name, is_dir_at, change_dir, add_child, after_alloc,
}

pub data RenameError : Type 0 where
  source_not_found target_exists parent_not_found is_directory not_directory : RenameError

-- A new node below a directory, at a path: what all the operations below share.
unfoldable pub add_node : Inode → String → VirtualPath → VirtualNode → VirtualTree → VirtualTree
unfolding change_dir after_alloc
add_node parent_inode name path node t = record t {
  nodes = change_dir parent_inode (add_child name t.next_inode) (insert t.next_inode node t.nodes);
  path_to_inode = insert path t.next_inode t.path_to_inode;
  next_inode = after_alloc t;
}

unfoldable pub add_dir : SystemTime → Inode → String → VirtualPath → VirtualTree → VirtualTree
unfolding add_node
add_dir now parent_inode name path t =
    add_node parent_inode name path
      (directory (record {
        inode = t.next_inode;
        parent = parent_inode;
        name = name;
        children = [];
        mtime = now;
      }))
      t

-- The loop over the components: what is there is kept, whatever it is; what is missing is made.
unfoldable pub make_dirs :
    SystemTime → List String → List String → Inode → VirtualTree → VirtualTree × Inode
unfolding add_dir
make_dirs now walked [] current t = (t, current)
make_dirs now walked (c ∷ cs) current t =
    let path = rooted_path (walked ++ (c ∷ [])) in
    elim (lookup path t.path_to_inode) [
      | some existing ↦ make_dirs now (walked ++ (c ∷ [])) cs existing t
      | none ↦ make_dirs now (walked ++ (c ∷ [])) cs t.next_inode (add_dir now current c path t)
    ]

unfoldable pub ensure_parents : SystemTime → VirtualPath → VirtualTree → VirtualTree × Inode
unfolding make_dirs init
ensure_parents now path t = make_dirs now [] (init path.components) root_inode t

unfoldable pub insert_file : SystemTime → FileMeta → VirtualTree → VirtualTree × Inode
unfolding ensure_parents file_name
insert_file now meta t =
    let (t', parent_inode) = ensure_parents now meta.virtual_path t in
    let inode = t'.next_inode in
    let name = file_name meta.virtual_path in
    (
      add_node parent_inode name meta.virtual_path
          (file (record {
            inode = inode;
            name = name;
            file_id = meta.id;
            size = meta.size;
            mtime = meta.mtime;
          }))
          t',
      inode,
    )

unfoldable pub mkdir :
    SystemTime → VirtualPath → VirtualTree → VirtualTree × Result RenameError Inode
mkdir now path t =
    if contains_key path t.path_to_inode
    then (t, err target_exists)
    else elim (lookup (parent_dir path) t.path_to_inode) [
      | none ↦ (t, err parent_not_found)
      | some parent_inode ↦
          if is_dir_at t.nodes parent_inode
          then (add_dir now parent_inode (file_name path) path t, ok t.next_inode)
          else (t, err parent_not_found)
    ]

unfoldable pub mkdir_p :
    SystemTime → VirtualPath → VirtualTree → VirtualTree × Result RenameError Inode
unfolding make_dirs
mkdir_p now path t = elim (lookup path t.path_to_inode) [
  | some existing ↦ if is_dir_at t.nodes existing then (t, ok existing) else (t, err target_exists)
  | none ↦ let (t', inode) = make_dirs now [] path.components root_inode t in (t', ok inode)
]

unfoldable pub ensure_trash_dir : SystemTime → VirtualTree → VirtualTree × Inode
unfolding add_dir
ensure_trash_dir now t =
    let trash_path = rooted_path (".trash" ∷ []) in
    elim (lookup trash_path t.path_to_inode) [
      | some inode ↦ (t, inode)
      | none ↦ (add_dir now root_inode ".trash" trash_path t, t.next_inode)
    ]

-- `TreeBuilder`, file by file
unfoldable pub add_files : SystemTime → List FileMeta → VirtualTree → VirtualTree
unfolding insert_file
add_files now [] t = t
add_files now (meta ∷ metas) t = add_files now metas (insert_file now meta t).0
