-- ===== src/Cache/Tree/Sound/Removed.antt =====
-- A node that has nothing below it is taken out of the tree.
use mathlib.Core.Option.{some-injective}
use native.Mathlib.Decide.{ℕ_discrete as dec}
use music_fs.Base.{
  ◌<◌, ◌≡◌, ◌≢◌, sym, ap, ◌∙◌, true, none, some, String, nat_eq, string_eq, same, same_iff, arith,
  if◌then◌else◌, Bool-cases, inl, inr,
}
use music_fs.Base.Dict.{lookup, lookup-remove}
use music_fs.Core.Types.{FilePath_eq, VirtualPath}
use music_fs.Cache.Tree.{
  Inode, root, DirNode, VirtualNode, directory, VirtualTree, dir_of, remove_child, node_name,
  last_name,
}
use music_fs.Cache.Tree.Sound.{
  IsTree, child, path-eq, child-ne_root, child-ne_self, child_injective, dir_of_directory,
  dir_of-some, inode_below,
}
use music_fs.Cache.Tree.Sound.AddNode.{dir_of-lookup}

module _ (t u : VirtualTree) (sound : IsTree t) (p : VirtualPath) (name : String)
    (inode parent_inode : Inode) (d : DirNode)
    (there : lookup (child p name) t.path_to_inode ≡ some inode)
    (here : lookup p t.path_to_inode ≡ some parent_inode)
    (is_directory : dir_of t.nodes parent_inode ≡ some d)
    (leaf : (n : String) → lookup (child (child p name) n) t.path_to_inode ≡ none)
    (paths : (q : VirtualPath)
      → lookup q u.path_to_inode
        ≡ (if same (child p name) q then none else lookup q t.path_to_inode))
    (nodes : (k : Inode)
      → lookup k u.nodes ≡ (
          if same inode k
          then none
          else if same parent_inode k
          then some (directory (remove_child name d))
          else lookup k t.nodes))
    (counter : u.next_inode ≡ t.next_inode) where
  abbrev path : VirtualPath
  path = child p name

  abbrev smaller : DirNode
  smaller = remove_child name d

  apart : inode ≢ parent_inode
  apart e = child-ne_self p name (sound.injective path p inode there (here ∙ ap some (sym e)))

  old_path :
      (q : VirtualPath) (i : Inode)
      → lookup q u.path_to_inode ≡ some i
      → (path ≢ q) × (lookup q t.path_to_inode ≡ some i)
  old_path q i e = elim (Bool-cases (same path q)) [
    | inl at_path ↦ absurd (cc (paths q, at_path, e))
    | inr other ↦ (λ r. cc ((same_iff path q).1 r, other), ground (arith, paths q, e, other))
  ]

  kept_path : (q : VirtualPath) → path ≢ q → lookup q u.path_to_inode ≡ lookup q t.path_to_inode
  kept_path q other = ground (arith, paths q, same_iff path q, other)

  -- Of a path that is left the inode is another.
  old_inode :
      (q : VirtualPath) (i : Inode) → path ≢ q → lookup q t.path_to_inode ≡ some i → inode ≢ i
  old_inode q i other e f = other (sound.injective path q inode there (e ∙ ap some (sym f)))

  node_parent : lookup parent_inode u.nodes ≡ some (directory smaller)
  node_parent = ground (
    arith,
    nodes parent_inode,
    same_iff inode parent_inode,
    same_iff parent_inode parent_inode,
    apart,
  )

  dir_parent : dir_of u.nodes parent_inode ≡ some smaller
  dir_parent = dir_of_directory u.nodes parent_inode smaller node_parent

  node_old : (i : Inode) → inode ≢ i → parent_inode ≢ i → lookup i u.nodes ≡ lookup i t.nodes
  node_old i ne nf = ground (arith, nodes i, same_iff inode i, same_iff parent_inode i, ne, nf)

  dir_old : (i : Inode) → inode ≢ i → parent_inode ≢ i → dir_of u.nodes i ≡ dir_of t.nodes i
  dir_old i ne nf = dir_of-lookup u.nodes t.nodes i (node_old i ne nf)

  removed-noded :
      (q : VirtualPath) (i : Inode)
      → lookup q u.path_to_inode ≡ some i
      → (n : VirtualNode) × (lookup i u.nodes ≡ some n)
  removed-noded q i e =
      let (other, old) = old_path q i e in
      elim (dec parent_inode i) [
        | yes is_parent ↦
            (directory smaller, ap (λ (x : Inode). lookup x u.nodes) (sym is_parent) ∙ node_parent)
        | no ne ↦
            let (n, was) = sound.noded q i old in (n, node_old i (old_inode q i other old) ne ∙ was)
      ]

  removed-named :
      (q : VirtualPath) (i : Inode) (n : VirtualNode)
      → lookup q u.path_to_inode ≡ some i
      → lookup i u.nodes ≡ some n
      → node_name n ≡ last_name q
  removed-named q i n e f =
      let (other, old) = old_path q i e in
      elim (dec parent_inode i) [
        | yes is_parent ↦
            let n_is : directory smaller ≡ n =
              some-injective (directory smaller) n
                (sym node_parent ∙ (ap (λ (x : Inode). lookup x u.nodes) is_parent ∙ f)) in
            ap node_name (sym n_is)
            ∙ sound.named q i (directory d) old (
                ap (λ (x : Inode). lookup x t.nodes) (sym is_parent)
                ∙ dir_of-some t.nodes parent_inode is_directory)
        | no ne ↦ sound.named q i n old (sym (node_old i (old_inode q i other old) ne) ∙ f)
      ]

  children_parent : (n : String) → lookup n smaller.children ≡ lookup (child p n) u.path_to_inode
  children_parent n = elim (Bool-cases (same name n)) [
    | inl e ↦ ground (
      arith,
      e,
      lookup-remove n name d.children,
      paths (child p n),
      same_iff path (child p n),
      ap (child p) ((same_iff name n).0 e),
    )
    | inr e ↦
        let other : path ≢ child p n =
          λ r. cc ((same_iff name n).1 (child_injective p p name n r).1, e) in
        ground (
          arith,
          e,
          lookup-remove n name d.children,
          kept_path (child p n) other,
          sound.children p parent_inode d n here is_directory,
        )
  ]

  removed-children :
      (q : VirtualPath) (i : Inode) (x : DirNode) (n : String)
      → lookup q u.path_to_inode ≡ some i
      → dir_of u.nodes i ≡ some x
      → lookup n x.children ≡ lookup (child q n) u.path_to_inode
  removed-children q i x n e f =
      let (other, old) = old_path q i e in
      elim (dec parent_inode i) [
        | yes is_parent ↦
            let x_is : smaller ≡ x = cc (dir_parent, f, ap (dir_of u.nodes) is_parent) in
            let q_is : p ≡ q =
              sound.injective p q parent_inode here (old ∙ ap some (sym is_parent)) in
            ap (λ (y : DirNode). lookup n y.children) (sym x_is)
            ∙ (children_parent n
                ∙ ap (λ (r : VirtualPath). lookup (child r n) u.path_to_inode) q_is)
        | no ne ↦
            let elsewhere : path ≢ child q n = λ r. ne (
              some-injective parent_inode i (
                sym here
                ∙ (ap (λ (y : VirtualPath). lookup y t.path_to_inode)
                      (path-eq p q (sound.rooted p parent_inode here ∙ sym (sound.rooted q i old))
                        (child_injective p q name n r).0)
                    ∙ old))) in
            sound.children q i x n old (sym (dir_old i (old_inode q i other old) ne) ∙ f)
            ∙ sym (kept_path (child q n) elsewhere)
      ]

  removed-parents :
      (q : VirtualPath) (n : String) (i : Inode)
      → q.rooted ≡ true
      → lookup (child q n) u.path_to_inode ≡ some i
      → (j : Inode) × (x : DirNode) × (lookup q u.path_to_inode ≡ some j)
        × (dir_of u.nodes j ≡ some x)
  removed-parents q n i r e =
      let (_, old) = old_path (child q n) i e in
      let (j, x, was, is_dir) = sound.parents q n i r old in
      let other : path ≢ q =
        λ s. cc (leaf n, old, ap (λ (y : VirtualPath). lookup (child y n) t.path_to_inode) s) in
      elim (dec parent_inode j) [
        | yes is_parent ↦
            (j, smaller, kept_path q other ∙ was, ap (dir_of u.nodes) (sym is_parent) ∙ dir_parent)
        | no ne ↦ (j, x, kept_path q other ∙ was, dir_old j (old_inode q j other was) ne ∙ is_dir)
      ]

  removed-below : (i : Inode) (n : VirtualNode) → lookup i u.nodes ≡ some n → i < u.next_inode
  removed-below i n e = elim (dec inode i) [
    | yes gone ↦ absurd (cc (e, ap (λ (x : Inode). lookup x u.nodes) gone, removed_node))
    | no ne ↦ elim (dec parent_inode i) [
      | yes is_parent ↦ omega (arith, is_parent, inode_below t sound p parent_inode here, counter)
      | no nf ↦ omega (arith, sound.below i n (sym (node_old i ne nf) ∙ e), counter)
    ]
  ]
    where
      removed_node : lookup inode u.nodes ≡ none
      removed_node = ground (arith, nodes inode, same_iff inode inode)

  pub removed-IsTree : IsTree u
  removed-IsTree = record {
    rooted = λ q i e. let (_, old) = old_path q i e in sound.rooted q i old;
    at_root = kept_path root (child-ne_root p name) ∙ sound.at_root;
    noded = removed-noded;
    named = removed-named;
    children = removed-children;
    parents = removed-parents;
    injective = λ q r i e f.
        let (_, old) = old_path q i e in
        let (_, old') = old_path r i f in sound.injective q r i old old';
    below = removed-below;
  }
