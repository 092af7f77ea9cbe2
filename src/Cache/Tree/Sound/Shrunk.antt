-- ===== src/Cache/Tree/Sound/Shrunk.antt =====
-- The operations that remove nodes keep the two views of the tree together.
use mathlib.Core.Option.{some-injective}
use music_fs.Base.{
  false, ◌≡◌, ◌≢◌, ◌⊎◌, List-cases, refl, sym, ap, ◌∙◌, none, some, List, [], ◌∷◌, String, nat_eq,
  string_eq, same, same_iff, arith, if◌then◌else◌, Option-cases, inl, inr, ok, err,
}
use music_fs.Base.Dict.{lookup, remove, lookup-remove}
use music_fs.Core.Types.{FilePath_eq, VirtualPath}
use music_fs.Cache.Tree.{
  ends_in_dots, file_name, Inode, rooted_path, DirNode, FileNode, VirtualNode, directory, file,
  VirtualTree, dir_of, remove_child, last_name, init, parent_or_root,
}
use music_fs.Cache.Tree.Shrink.{
  detach, remove_file, remove_directory, not_found, not_directory, not_empty,
}
use music_fs.Cache.Tree.Sound.{
  file_name-last_name, IsTree, child, child-ne_self, child-last_name, parent_or_root-eq,
  dir_of_directory, dir_of-some,
}
use music_fs.Cache.Tree.Sound.AddNode.{dir_of-lookup, lookup-change_dir}
use music_fs.Cache.Tree.Sound.Removed.{removed-IsTree}

lookup-nil : (n : String) → lookup {V = Inode} n [] ≡ none
unfolding lookup
lookup-nil n = refl

lookup-detach :
    (parent : VirtualPath) (name : String) (paths : List (VirtualPath × Inode))
    (nodes : List (Inode × VirtualNode)) (j k : Inode) (d : DirNode)
    → lookup parent paths ≡ some j
    → dir_of nodes j ≡ some d
    → lookup k (detach parent name paths nodes)
      ≡ (if same j k then some (directory (remove_child name d)) else lookup k nodes)
unfolding detach
lookup-detach parent name paths nodes j k d e f =
    ground (arith, e, lookup-change_dir j k (remove_child name) nodes {d = d} f)

remove_file-file :
    (path : VirtualPath) (t : VirtualTree) (inode : Inode) (f : FileNode)
    → lookup path t.path_to_inode ≡ some inode
    → lookup inode t.nodes ≡ some (file f)
    → remove_file path t ≡ (
      record t {
        path_to_inode = remove path t.path_to_inode;
        nodes =
            detach
              (parent_or_root path)
              f.name
              (remove path t.path_to_inode)
              (remove inode t.nodes);
      },
      some f.file_id,
    )
unfolding remove_file
remove_file-file path t inode f e g = ground (arith, e, g)

remove_directory-empty :
    (path : VirtualPath) (t : VirtualTree) (inode : Inode) (d : DirNode)
    → lookup path t.path_to_inode ≡ some inode
    → lookup inode t.nodes ≡ some (directory d)
    → d.children ≡ []
    → remove_directory path t ≡ (
      record t {
        path_to_inode = remove path t.path_to_inode;
        nodes =
            remove inode (detach (parent_or_root path) (file_name path) t.path_to_inode t.nodes);
      },
      ok tt,
    )
unfolding remove_directory
remove_directory-empty path t inode d e g bare = ground (arith, e, g, bare)

remove_directory-full :
    (path : VirtualPath) (t : VirtualTree) (inode : Inode) (d : DirNode) (x : String × Inode)
    (xs : List (String × Inode))
    → lookup path t.path_to_inode ≡ some inode
    → lookup inode t.nodes ≡ some (directory d)
    → d.children ≡ x ∷ xs
    → remove_directory path t ≡ (t, err not_empty)
unfolding remove_directory
remove_directory-full path t inode d x xs e g full = ground (arith, e, g, full)

-- What the removal of a path promises.
pub record Gone (t : VirtualTree) (path : VirtualPath) (u : VirtualTree) : Type 0 where
  pub sound : IsTree u
  pub gone : lookup path u.path_to_inode ≡ none
  pub kept : (q : VirtualPath) → path ≢ q → lookup q u.path_to_inode ≡ lookup q t.path_to_inode

module _ (t : VirtualTree) (sound : IsTree t) (path : VirtualPath) (c : String) (cs : List String)
    (parts : path.components ≡ c ∷ cs) (inode : Inode)
    (there : lookup path t.path_to_inode ≡ some inode)
    (leaf : (n : String) → lookup (child path n) t.path_to_inode ≡ none) where
  abbrev parent_path : VirtualPath
  parent_path = rooted_path (init (c ∷ cs))

  whole : child parent_path (last_name path) ≡ path
  whole = child-last_name path c cs (sound.rooted path inode there) parts

  above :
      (j : Inode) × (d : DirNode) × (lookup parent_path t.path_to_inode ≡ some j)
      × (dir_of t.nodes j ≡ some d)
  above =
      sound.parents parent_path (last_name path) inode refl
        (ap (λ (x : VirtualPath). lookup x t.path_to_inode) whole ∙ there)

  abbrev paths : List (VirtualPath × Inode)
  paths = remove path t.path_to_inode

  paths-lookup :
      (q : VirtualPath) → lookup q paths ≡ (if same path q then none else lookup q t.path_to_inode)
  paths-lookup q = lookup-remove q path t.path_to_inode

  apart : inode ≢ above.0
  apart e =
      child-ne_self parent_path (last_name path)
        (whole ∙ sound.injective path parent_path inode there (above.2 ∙ ap some (sym e)))

  -- A tree without the path and its node, whose name its directory has not any more.
  without-Gone :
      (nodes : List (Inode × VirtualNode))
      → ((k : Inode)
          → lookup k nodes ≡ (
              if same inode k
              then none
              else if same above.0 k
              then some (directory (remove_child (last_name path) above.1))
              else lookup k t.nodes))
      → Gone t path (record t { path_to_inode = paths; nodes = nodes })
  without-Gone nodes e = record {
    sound =
        removed-IsTree t (record t { path_to_inode = paths; nodes = nodes }) sound parent_path
          (last_name path) inode above.0 above.1
          (ap (λ (x : VirtualPath). lookup x t.path_to_inode) whole ∙ there) above.2 above.3
          (λ n. ap (λ (x : VirtualPath). lookup (child x n) t.path_to_inode) whole ∙ leaf n)
          (λ q.
            paths-lookup q
            ∙ ap (λ (x : VirtualPath). if same x q then none else lookup q t.path_to_inode)
                (sym whole))
          e refl;
    gone = ground (arith, paths-lookup path, same_iff path path);
    kept = λ q other. ground (arith, paths-lookup q, same_iff path q, other);
  }

  is_parent : parent_or_root path ≡ parent_path
  is_parent = parent_or_root-eq path c cs (sound.rooted path inode there) parts

  parent_there : lookup (parent_or_root path) t.path_to_inode ≡ some above.0
  parent_there = ap (λ (x : VirtualPath). lookup x t.path_to_inode) is_parent ∙ above.2

  parent_left : lookup (parent_or_root path) paths ≡ some above.0
  parent_left = ground (
    arith,
    paths-lookup (parent_or_root path),
    same_iff path (parent_or_root path),
    λ (e : path ≡ parent_or_root path).
        child-ne_self parent_path (last_name path) (whole ∙ (e ∙ is_parent)),
    parent_there,
  )

  dir_left : dir_of (remove inode t.nodes) above.0 ≡ some above.1
  dir_left =
      dir_of-lookup (remove inode t.nodes) t.nodes above.0
        (ground (arith, lookup-remove above.0 inode t.nodes, same_iff inode above.0, apart))
      ∙ above.3

  -- Detached first, as `remove_directory` does.
  detached_first :
      (k : Inode)
      → lookup k
          (remove inode (detach (parent_or_root path) (last_name path) t.path_to_inode t.nodes))
        ≡ (if same inode k
            then none
            else if same above.0 k
            then some (directory (remove_child (last_name path) above.1))
            else lookup k t.nodes)
  detached_first k = ground (
    arith,
    lookup-remove k inode (detach (parent_or_root path) (last_name path) t.path_to_inode t.nodes),
    lookup-detach (parent_or_root path) (last_name path) t.path_to_inode t.nodes above.0 k above.1
        parent_there above.3,
  )

  -- Detached last, as `remove_file` does.
  detached_last :
      (k : Inode)
      → lookup k (detach (parent_or_root path) (last_name path) paths (remove inode t.nodes)) ≡ (
          if same inode k
          then none
          else if same above.0 k
          then some (directory (remove_child (last_name path) above.1))
          else lookup k t.nodes)
  detached_last k = ground (
    arith,
    lookup-remove k inode t.nodes,
    lookup-detach (parent_or_root path) (last_name path) paths (remove inode t.nodes) above.0 k
        above.1 parent_left dir_left,
    same_iff inode k,
    same_iff above.0 k,
    apart,
  )

  remove_leaf-Gone :
      (f : FileNode)
      → lookup inode t.nodes ≡ some (file f)
      → Gone t path (remove_file path t).0 × ((remove_file path t).1 ≡ some f.file_id)
  remove_leaf-Gone f e =
      let called : f.name ≡ last_name path = sound.named path inode (file f) there e in
      let result : remove_file path t ≡ (
        record t {
          path_to_inode = paths;
          nodes = detach (parent_or_root path) f.name paths (remove inode t.nodes);
        },
        some f.file_id,
      ) =
        remove_file-file path t inode f there e in
      rw (result, called) (without-Gone _ detached_last, refl)

  remove_directory-Gone :
      (d : DirNode)
      → ends_in_dots path ≡ false
      → lookup inode t.nodes ≡ some (directory d)
      → d.children ≡ []
      → Gone t path (remove_directory path t).0 × ((remove_directory path t).1 ≡ ok tt)
  remove_directory-Gone d plain e bare =
      rw (remove_directory-empty path t inode d there e bare, file_name-last_name path plain)
        (without-Gone _ detached_first, refl)

-- What a path leads to.
abbrev pub LeadsTo : VirtualTree → VirtualPath → VirtualNode → Type 0
LeadsTo t path n =
    (inode : Inode) × (lookup path t.path_to_inode ≡ some inode) × (lookup inode t.nodes ≡ some n)

-- The answers of `remove_directory`, each with what the path leads to.
abbrev pub Answers : VirtualTree → VirtualPath → Type 0
Answers t path =
    ((lookup path t.path_to_inode ≡ none) × (remove_directory path t ≡ (t, err not_found)))
    ⊎ (((f : FileNode) × LeadsTo t path (file f)
          × (remove_directory path t ≡ (t, err not_directory)))
        ⊎ (((d : DirNode) × (x : String × Inode) × (xs : List (String × Inode)) × LeadsTo t path
                (directory d)
              × (d.children ≡ x ∷ xs)
              × (remove_directory path t ≡ (t, err not_empty)))
            ⊎ ((d : DirNode) × LeadsTo t path (directory d)
                × (d.children ≡ [])
                × Gone t path (remove_directory path t).0
                × ((remove_directory path t).1 ≡ ok tt))))

-- If the two views of the tree agree, removing a directory at a path that is no root and does not
-- end in two dots fails with NotFound where there is nothing, with NotDirectory where there is a
-- file, with NotEmpty where the directory has a child, and changes nothing then; a directory
-- without children it removes: it takes out the path and no other, and keeps the two views in
-- agreement.
pub remove_directory-cases :
    (t : VirtualTree)
    → IsTree t
    → (path : VirtualPath) (c : String) (cs : List String) → path.components ≡ c ∷ cs
    → ends_in_dots path ≡ false
    → Answers t path
unfolding remove_directory
remove_directory-cases t sound path c cs parts plain =
    elim (Option-cases (lookup path t.path_to_inode)) [
      | inl absent ↦ inl (absent, ground (arith, absent))
      | inr (inode, there) ↦ let (n, e) = sound.noded path inode there in go inode there n e
    ]
  where
    go :
        (inode : Inode)
        → lookup path t.path_to_inode ≡ some inode
        → (n : VirtualNode) → lookup inode t.nodes ≡ some n
        → Answers t path
    go inode there (file f) e = inr (inl (f, (inode, there, e), ground (arith, there, e)))
    go inode there (directory d) e = elim (List-cases d.children) [
      | inl bare ↦
          let (gone, done) =
            remove_directory-Gone t sound path c cs parts inode there
              (λ n.
                sym (sound.children path inode d n there (dir_of_directory t.nodes inode d e))
                ∙ (ap (λ (x : List (String × Inode)). lookup n x) bare ∙ lookup-nil n))
              d plain e bare in
          inr (inr (inr (d, (inode, there, e), bare, gone, done)))
      | inr (x, xs, full) ↦
          let failed = remove_directory-full path t inode d x xs there e full in
          inr (inr (inl (d, x, xs, (inode, there, e), full, failed)))
    ]

-- Removing a file keeps the two views of the tree in agreement, returns its identity, and takes out
-- its path and no other; if the two views agree and the path, which is no root, leads to a file.
pub remove_file-Gone :
    (t : VirtualTree)
    → IsTree t
    → (path : VirtualPath) (c : String) (cs : List String) → path.components ≡ c ∷ cs
    → (inode : Inode) (f : FileNode) → lookup path t.path_to_inode ≡ some inode
    → lookup inode t.nodes ≡ some (file f)
    → Gone t path (remove_file path t).0 × ((remove_file path t).1 ≡ some f.file_id)
remove_file-Gone t sound path c cs parts inode f there e =
    remove_leaf-Gone t sound path c cs parts inode there leaf f e
  where
    leaf : (n : String) → lookup (child path n) t.path_to_inode ≡ none
    leaf n = elim (Option-cases (lookup (child path n) t.path_to_inode)) [
      | inl absent ↦ absent
      | inr (i, below) ↦
          let (j, x, above, is_dir) =
            sound.parents path n i (sound.rooted path inode there) below in
          let same_node : some (directory x) ≡ some (file f) =
            sym (dir_of-some t.nodes j is_dir)
            ∙ (ap (λ (k : Inode). lookup k t.nodes) (some-injective j inode (sym above ∙ there))
                ∙ e) in
          cc
    ]
