-- ===== src/Cache/Tree/Sound/Inserted.antt =====
-- A file that is inserted with the directories on its way.
use music_fs.Base.{
  false, ◌+◌, ◌<◌, ◌≡◌, ◌≢◌, refl, sym, ap, ◌∙◌, true, none, some, List, [], ◌∷◌, ◌++◌, String,
  nat_eq, string_eq, arith, length,
}
use mathlib.Core.Path.{subst}
use music_fs.Base.Dict.{lookup}
use music_fs.Base.Words.{u64_mod}
use music_fs.Core.Types.{FilePath_eq, VirtualPath, SystemTime, FileMeta}
use music_fs.Cache.Tree.{
  file_name, ends_in_dots, Inode, root_inode, rooted_path, DirNode, VirtualNode, directory, file,
  VirtualTree, dir_of, init, last_or, last_name,
}
use music_fs.Cache.Tree.Grow.{add_node, make_dirs, ensure_parents, insert_file}
use music_fs.Cache.Tree.Sound.{
  file_name-last_name, IsTree, child, path-eq, append-init-last_or, inode_below,
}
use music_fs.Cache.Tree.Sound.AddNode.{
  add_node-IsTree, grown-path_new, grown-path_old, grown-node_new,
}
use music_fs.Cache.Tree.Sound.Made.{Made, Passable, make_dirs-Made, make_dirs-few}
use music_fs.Cache.Tree.Sound.Walk.{walk, walk-path}

-- The node of a file.
abbrev pub file_node : String → FileMeta → Inode → VirtualNode
file_node name meta inode =
    file (record {
      inode = inode;
      name = name;
      file_id = meta.id;
      size = meta.size;
      mtime = meta.mtime;
    })

length-init : (c : String) (cs : List String) → length (init (c ∷ cs)) + 1 ≡ length (c ∷ cs)
unfolding init
length-init c [] = refl
length-init c (d ∷ cs) = omega (arith, length-init d cs)

-- What the insertion of a file promises.
pub record Placed (t : VirtualTree) (meta : FileMeta) (r : VirtualTree × Inode) : Type 0 where
  pub sound : IsTree r.0
  pub walked : walk r.0 root_inode meta.virtual_path.components ≡ some r.1
  pub placed : lookup r.1 r.0.nodes ≡ some (file_node (last_name meta.virtual_path) meta r.1)
  pub kept :
      (q : VirtualPath) (i : Inode)
      → meta.virtual_path ≢ q
      → lookup q t.path_to_inode ≡ some i
      → lookup q r.0.path_to_inode ≡ some i

module _ (t : VirtualTree) (sound : IsTree t) (now : SystemTime) (meta : FileMeta) (c : String)
    (cs : List String) (rooted : meta.virtual_path.rooted ≡ true)
    (parts : meta.virtual_path.components ≡ c ∷ cs) (clear : Passable t [] (init (c ∷ cs)))
    (plain : ends_in_dots meta.virtual_path ≡ false)
    (no_directory : (i : Inode)
      → lookup meta.virtual_path t.path_to_inode ≡ some i
      → dir_of t.nodes i ≡ none)
    (room : t.next_inode + length (c ∷ cs) < u64_mod) where
  abbrev path : VirtualPath
  path = meta.virtual_path

  abbrev t1 : VirtualTree
  t1 = (make_dirs now [] (init (c ∷ cs)) root_inode t).0

  abbrev parent_inode : Inode
  parent_inode = (make_dirs now [] (init (c ∷ cs)) root_inode t).1

  abbrev parent_path : VirtualPath
  parent_path = rooted_path (init (c ∷ cs))

  made : Made t (init (c ∷ cs)) t1 parent_inode
  made =
      make_dirs-Made now (init (c ∷ cs)) [] root_inode t sound sound.at_root
        (clear [] (init (c ∷ cs)) refl root_inode sound.at_root) clear
        (omega (arith, room, length-init c cs))

  whole : child parent_path (last_name path) ≡ path
  unfolding last_name
  whole = path-eq (child parent_path (last_name path)) path (sym rooted) (
      ap (λ (x : List String). init (c ∷ cs) ++ (last_or "" x ∷ [])) parts
      ∙ (append-init-last_or "" c cs ∙ sym parts))

  free :
      (i : Inode)
      → lookup (child parent_path (last_name path)) t1.path_to_inode ≡ some i
      → dir_of t1.nodes i ≡ none
  free i e =
      let longer : length (init (c ∷ cs)) < length path.components =
        omega (arith, length-init c cs, ap (λ (x : List String). length x) parts) in
      let old : lookup path t.path_to_inode ≡ some i =
        sym (made.beyond path longer)
        ∙ (ap (λ (x : VirtualPath). lookup x t1.path_to_inode) (sym whole) ∙ e) in
      made.no_dir i (inode_below t sound path i old) (no_directory i old)

  bare :
      (e : DirNode) → file_node (last_name path) meta t1.next_inode ≡ directory e → e.children ≡ []
  bare e f = cc

  room_left : t1.next_inode + 1 < u64_mod
  room_left =
      omega (arith, room, length-init c cs, make_dirs-few now [] (init (c ∷ cs)) root_inode t)

  inserted-eq : insert_file now meta t ≡ (
    add_node parent_inode (last_name path) path (file_node (last_name path) meta t1.next_inode) t1,
    t1.next_inode,
  )
  unfolding insert_file ensure_parents
  inserted-eq =
      ap
        (λ (x : List String).
          let (t', parent') = make_dirs now [] (init x) root_inode t in
          (
            add_node parent' (file_name path) path (file_node (file_name path) meta t'.next_inode)
                t',
            t'.next_inode,
          ))
        parts
      ∙ ap
          (λ (n : String).
            (add_node parent_inode n path (file_node n meta t1.next_inode) t1, t1.next_inode))
          (file_name-last_name path plain)

  at_path :
      (u : VirtualTree)
      → lookup path u.path_to_inode ≡ lookup (rooted_path path.components) u.path_to_inode
  at_path u =
      ap (λ (x : VirtualPath). lookup x u.path_to_inode)
        (path-eq path (rooted_path path.components) rooted refl)

  abbrev t2 : VirtualTree
  t2 =
      add_node parent_inode (last_name path) (child parent_path (last_name path))
        (file_node (last_name path) meta t1.next_inode) t1

  t2-IsTree : IsTree t2
  t2-IsTree =
      add_node-IsTree t1 made.sound parent_path (last_name path)
        (file_node (last_name path) meta t1.next_inode) parent_inode made.is_directory.0 made.there
        made.is_directory.1 free bare refl room_left

  t2-Placed : Placed t meta (t2, t1.next_inode)
  t2-Placed = record {
    sound = t2-IsTree;
    walked =
        walk-path t2 t2-IsTree path.components
        ∙ (sym (at_path t2)
            ∙ (ap (λ (x : VirtualPath). lookup x t2.path_to_inode) (sym whole)
                ∙ grown-path_new t1 made.sound parent_path (last_name path)
                    (file_node (last_name path) meta t1.next_inode) parent_inode made.is_directory.0
                    made.there made.is_directory.1 free bare refl room_left));
    placed =
        grown-node_new t1 made.sound parent_path (last_name path)
          (file_node (last_name path) meta t1.next_inode) parent_inode made.is_directory.0
          made.there made.is_directory.1 free bare refl room_left;
    kept = λ q i apart e.
        grown-path_old t1 made.sound parent_path (last_name path)
          (file_node (last_name path) meta t1.next_inode) parent_inode made.is_directory.0
          made.there made.is_directory.1 free bare refl room_left q (λ f. apart (sym whole ∙ f))
        ∙ made.kept q i e;
  }

  -- Inserting a file keeps the map of paths and the directories with their children in agreement,
  -- the walk from the root by names finds the new node, which is the file's, and every other path
  -- leads where it led; if the path is rooted, is no root and does not end in two dots, no file is
  -- on the way and no directory at its end, and there are inodes left for the components.
  pub insert_file-Placed : Placed t meta (insert_file now meta t)
  insert_file-Placed = rw inserted-eq (
      subst
        (λ (p : VirtualPath). Placed t meta (
          add_node parent_inode (last_name path) p (file_node (last_name path) meta t1.next_inode)
              t1,
          t1.next_inode,
        ))
        whole t2-Placed)
