-- ===== src/Cache/Tree/Sound/AddNode.antt =====
-- A new node keeps the two views of the tree together.
use mathlib.Core.Option.{some-injective}
use music_fs.Cache.Tree.Sound.{
  last_name-child, child-ne_root, child-ne_self, child_injective, path-eq, dir_of_directory,
  dir_of-some, IsTree, child, inode_below,
}
use music_fs.Cache.Tree.{
  node_name, last_name, root, after_alloc, Inode, DirNode, VirtualNode, directory, VirtualTree,
  dir_of, change_dir, add_child,
}
use native.Mathlib.Decide.{ℕ_discrete as dec}
use music_fs.Base.{
  ◌≢◌, refl, ap, ◌⊎◌, Option-cases, Bool-cases, inl, inr, [], sym, true, none, ◌+◌, ◌<◌, ◌≡◌, ◌∙◌,
  some, List, String, nat_eq, string_eq, same, same_iff, arith, if◌then◌else◌,
}
use music_fs.Base.Dict.{lookup, insert, lookup-insert}
use music_fs.Base.Words.{u64_mod}
use music_fs.Core.Types.{FilePath_eq, VirtualPath}
use music_fs.Cache.Tree.Grow.{add_node}

-- What `get_mut` of a directory changes.
pub lookup-change_dir :
    (i j : Inode) (f : DirNode → DirNode) (nodes : List (Inode × VirtualNode)) {d : DirNode}
    → dir_of nodes i ≡ some d
    → lookup j (change_dir i f nodes)
      ≡ (if same i j then some (directory (f d)) else lookup j nodes)
unfolding change_dir
lookup-change_dir i j f nodes {d} e = ground (arith, e, lookup-insert j i (directory (f d)) nodes)

pub dir_of-lookup :
    (m n : List (Inode × VirtualNode)) (i : Inode)
    → lookup i m ≡ lookup i n
    → dir_of m i ≡ dir_of n i
unfolding dir_of
dir_of-lookup m n i e = ground (arith, e)

module _ (t : VirtualTree) (sound : IsTree t) (p : VirtualPath) (name : String) (node : VirtualNode)
    (parent_inode : Inode) (d : DirNode) (here : lookup p t.path_to_inode ≡ some parent_inode)
    (is_directory : dir_of t.nodes parent_inode ≡ some d)
    (free : (i : Inode) → lookup (child p name) t.path_to_inode ≡ some i → dir_of t.nodes i ≡ none)
    (bare : (e : DirNode) → node ≡ directory e → e.children ≡ []) (called : node_name node ≡ name)
    (room : t.next_inode + 1 < u64_mod) where
  abbrev path : VirtualPath
  path = child p name

  abbrev grown : VirtualTree
  grown = add_node parent_inode name path node t

  parent_below : parent_inode < t.next_inode
  parent_below = inode_below t sound p parent_inode here

  pub grown-paths :
      (q : VirtualPath)
      → lookup q grown.path_to_inode
        ≡ (if same path q then some t.next_inode else lookup q t.path_to_inode)
  unfolding add_node
  grown-paths q = lookup-insert q path t.next_inode t.path_to_inode

  still_directory : dir_of (insert t.next_inode node t.nodes) parent_inode ≡ some d
  still_directory =
      dir_of-lookup (insert t.next_inode node t.nodes) t.nodes parent_inode (
        ground (
          arith,
          lookup-insert parent_inode t.next_inode node t.nodes,
          same_iff t.next_inode parent_inode,
          parent_below,
        ))
      ∙ is_directory

  nodes :
      (i : Inode)
      → lookup i grown.nodes ≡ (
          if same parent_inode i
          then some (directory (add_child name t.next_inode d))
          else if same t.next_inode i
          then some node
          else lookup i t.nodes)
  unfolding add_node
  nodes i = ground (
    arith,
    lookup-change_dir parent_inode i (add_child name t.next_inode)
        (insert t.next_inode node t.nodes) still_directory,
    lookup-insert i t.next_inode node t.nodes,
  )

  old_or_new :
      (q : VirtualPath) (i : Inode)
      → lookup q grown.path_to_inode ≡ some i
      → ((path ≡ q) × (i ≡ t.next_inode)) ⊎ ((path ≢ q) × (lookup q t.path_to_inode ≡ some i))
  old_or_new q i e = elim (Bool-cases (same path q)) [
    | inl same_path ↦
        inl ((same_iff path q).0 same_path, ground (arith, grown-paths q, e, same_path))
    | inr other ↦
        inr (λ r. cc ((same_iff path q).1 r, other), ground (arith, grown-paths q, e, other))
  ]

  dir_parent : dir_of grown.nodes parent_inode ≡ some (add_child name t.next_inode d)
  dir_parent =
      dir_of_directory grown.nodes parent_inode (add_child name t.next_inode d)
        (ground (arith, nodes parent_inode, same_iff parent_inode parent_inode))

  pub grown-node_new : lookup t.next_inode grown.nodes ≡ some node
  grown-node_new = ground (
    arith,
    nodes t.next_inode,
    same_iff parent_inode t.next_inode,
    same_iff t.next_inode t.next_inode,
    parent_below,
  )

  node_old :
      (i : Inode) → parent_inode ≢ i → t.next_inode ≢ i → lookup i grown.nodes ≡ lookup i t.nodes
  node_old i ne nf =
      ground (arith, nodes i, same_iff parent_inode i, same_iff t.next_inode i, ne, nf)

  dir_old :
      (i : Inode) → parent_inode ≢ i → t.next_inode ≢ i → dir_of grown.nodes i ≡ dir_of t.nodes i
  dir_old i ne nf = dir_of-lookup grown.nodes t.nodes i (node_old i ne nf)

  dir_new : (e : DirNode) → dir_of grown.nodes t.next_inode ≡ some e → e.children ≡ []
  dir_new e f = bare e (cc (grown-node_new, dir_of-some grown.nodes t.next_inode f))

  -- What was there has another inode than the new one.
  not_new : (q : VirtualPath) (i : Inode) → lookup q t.path_to_inode ≡ some i → t.next_inode ≢ i
  not_new q i e f = omega (arith, inode_below t sound q i e, f)

  -- Nothing lay below the path.
  none_below : (n : String) → lookup (child path n) t.path_to_inode ≡ none
  none_below n = elim (Option-cases (lookup (child path n) t.path_to_inode)) [
    | inl e ↦ e
    | inr (i, e) ↦
        let (j, x, there, is_dir) = sound.parents path n i refl e in
        absurd (cc (free j there, is_dir))
  ]

  grown-noded :
      (q : VirtualPath) (i : Inode)
      → lookup q grown.path_to_inode ≡ some i
      → (n : VirtualNode) × (lookup i grown.nodes ≡ some n)
  grown-noded q i e = elim (old_or_new q i e) [
    | inl (_, new) ↦ (node, ap (λ (x : Inode). lookup x grown.nodes) new ∙ grown-node_new)
    | inr (_, old) ↦ elim (dec parent_inode i) [
      | yes is_parent ↦ (
        directory (add_child name t.next_inode d),
        ap (λ (x : Inode). lookup x grown.nodes) (sym is_parent)
            ∙ dir_of-some grown.nodes parent_inode dir_parent,
      )
      | no other ↦
          let (n, there) = sound.noded q i old in (n, node_old i other (not_new q i old) ∙ there)
    ]
  ]

  children_new :
      (x : DirNode) (n : String)
      → dir_of grown.nodes t.next_inode ≡ some x
      → lookup n x.children ≡ lookup (child path n) grown.path_to_inode
  unfolding lookup
  children_new x n e = ground (
    arith,
    dir_new x e,
    grown-paths (child path n),
    none_below n,
    same_iff path (child path n),
    child-ne_self path n,
  )

  children_parent :
      (n : String)
      → lookup n (add_child name t.next_inode d).children ≡ lookup (child p n) grown.path_to_inode
  children_parent n = elim (Bool-cases (same name n)) [
    | inl e ↦
        let q = (same_iff name n).0 e in
        ground (
          arith,
          e,
          lookup-insert n name t.next_inode d.children,
          grown-paths (child p n),
          same_iff path (child p n),
          ap (child p) q,
        )
    | inr e ↦
        let apart : path ≢ child p n =
          λ r. cc ((same_iff name n).1 (child_injective p p name n r).1, e) in
        ground (
          arith,
          e,
          lookup-insert n name t.next_inode d.children,
          grown-paths (child p n),
          same_iff path (child p n),
          apart,
          sound.children p parent_inode d n here is_directory,
        )
  ]

  -- Of another directory the children are what they were.
  children_old :
      (q : VirtualPath) (i : Inode) (n : String)
      → lookup q t.path_to_inode ≡ some i
      → parent_inode ≢ i
      → lookup (child q n) grown.path_to_inode ≡ lookup (child q n) t.path_to_inode
  children_old q i n e other =
      let apart : path ≢ child q n = λ r. other (
        cc (
          here,
          e,
          ap (λ (x : VirtualPath). lookup x t.path_to_inode)
              (path-eq p q (sound.rooted p parent_inode here ∙ sym (sound.rooted q i e))
                (child_injective p q name n r).0),
        )) in
      ground (arith, grown-paths (child q n), same_iff path (child q n), apart)

  grown-named :
      (q : VirtualPath) (i : Inode) (n : VirtualNode)
      → lookup q grown.path_to_inode ≡ some i
      → lookup i grown.nodes ≡ some n
      → node_name n ≡ last_name q
  grown-named q i n e f = elim (old_or_new q i e) [
    | inl (at_path, new) ↦
        let n_is : node ≡ n =
          some-injective node n
            (sym grown-node_new ∙ (ap (λ (x : Inode). lookup x grown.nodes) (sym new) ∙ f)) in
        ap node_name (sym n_is) ∙ (called ∙ (sym (last_name-child p name) ∙ ap last_name at_path))
    | inr (_, old) ↦ elim (dec parent_inode i) [
      | yes is_parent ↦
          let n_is : directory (add_child name t.next_inode d) ≡ n = some-injective _ n (
            sym (dir_of-some grown.nodes parent_inode dir_parent)
            ∙ (ap (λ (x : Inode). lookup x grown.nodes) is_parent ∙ f)) in
          ap node_name (sym n_is)
          ∙ sound.named q i (directory d) old (
              ap (λ (x : Inode). lookup x t.nodes) (sym is_parent)
              ∙ dir_of-some t.nodes parent_inode is_directory)
      | no other ↦ sound.named q i n old (sym (node_old i other (not_new q i old)) ∙ f)
    ]
  ]

  grown-children :
      (q : VirtualPath) (i : Inode) (x : DirNode) (n : String)
      → lookup q grown.path_to_inode ≡ some i
      → dir_of grown.nodes i ≡ some x
      → lookup n x.children ≡ lookup (child q n) grown.path_to_inode
  grown-children q i x n e f = elim (old_or_new q i e) [
    | inl (at_path, new) ↦
        children_new x n (ap (dir_of grown.nodes) (sym new) ∙ f)
        ∙ ap (λ (r : VirtualPath). lookup (child r n) grown.path_to_inode) at_path
    | inr (_, old) ↦ elim (dec parent_inode i) [
      | yes is_parent ↦
          let x_is : add_child name t.next_inode d ≡ x =
            cc (dir_parent, f, ap (dir_of grown.nodes) is_parent) in
          let q_is : p ≡ q =
            sound.injective p q parent_inode here (old ∙ ap some (sym is_parent)) in
          ap (λ (y : DirNode). lookup n y.children) (sym x_is)
          ∙ (children_parent n
              ∙ ap (λ (r : VirtualPath). lookup (child r n) grown.path_to_inode) q_is)
      | no other ↦
          sound.children q i x n old (sym (dir_old i other (not_new q i old)) ∙ f)
          ∙ sym (children_old q i n old other)
    ]
  ]

  grown-parents :
      (q : VirtualPath) (n : String) (i : Inode)
      → q.rooted ≡ true
      → lookup (child q n) grown.path_to_inode ≡ some i
      → (j : Inode) × (x : DirNode) × (lookup q grown.path_to_inode ≡ some j)
        × (dir_of grown.nodes j ≡ some x)
  grown-parents q n i r e = elim (old_or_new (child q n) i e) [
    | inl (at_path, _) ↦
        let q_is : p ≡ q =
          path-eq p q (sound.rooted p parent_inode here ∙ sym r)
            (child_injective p q name n at_path).0 in
        (
          parent_inode,
          add_child name t.next_inode d,
          ap (λ (y : VirtualPath). lookup y grown.path_to_inode) (sym q_is) ∙ p_there,
          dir_parent,
        )
    | inr (_, old) ↦
        let (j, x, there, is_dir) = sound.parents q n i r old in
        let apart : path ≢ q =
          λ s. cc (free j (ap (λ (y : VirtualPath). lookup y t.path_to_inode) s ∙ there), is_dir) in
        let there' : lookup q grown.path_to_inode ≡ some j =
          ground (arith, grown-paths q, same_iff path q, apart, there) in
        elim (dec parent_inode j) [
          | yes is_parent ↦ (
            j,
            add_child name t.next_inode d,
            there',
            ap (dir_of grown.nodes) (sym is_parent) ∙ dir_parent,
          )
          | no other ↦ (j, x, there', dir_old j other (not_new q j there) ∙ is_dir)
        ]
  ]
    where
      p_there : lookup p grown.path_to_inode ≡ some parent_inode
      p_there = ground (arith, grown-paths p, same_iff path p, child-ne_self p name, here)

  grown-injective :
      (q r : VirtualPath) (i : Inode)
      → lookup q grown.path_to_inode ≡ some i
      → lookup r grown.path_to_inode ≡ some i
      → q ≡ r
  grown-injective q r i e f = elim (old_or_new q i e) [
    | inl (q_is, new) ↦ elim (old_or_new r i f) [
      | inl (r_is, _) ↦ sym q_is ∙ r_is
      | inr (_, old) ↦ absurd (not_new r i old (sym new))
    ]
    | inr (_, old) ↦ elim (old_or_new r i f) [
      | inl (_, new) ↦ absurd (not_new q i old (sym new))
      | inr (_, old') ↦ sound.injective q r i old old'
    ]
  ]

  grown-below : (i : Inode) (n : VirtualNode) → lookup i grown.nodes ≡ some n → i < grown.next_inode
  unfolding add_node after_alloc
  grown-below i n e = elim (dec parent_inode i) [
    | yes is_parent ↦ omega (arith, parent_below, is_parent, room)
    | no other ↦ elim (dec t.next_inode i) [
      | yes new ↦ omega (arith, new, room)
      | no apart ↦ omega (arith, sound.below i n (sym (node_old i other apart) ∙ e), room)
    ]
  ]

  pub add_node-IsTree : IsTree (add_node parent_inode name path node t)
  add_node-IsTree = record {
    rooted = λ q i e. elim (old_or_new q i e) [
      | inl (q_is, _) ↦ ap (λ (x : VirtualPath). x.rooted) (sym q_is)
      | inr (_, old) ↦ sound.rooted q i old
    ];
    at_root =
        ground (arith, grown-paths root, same_iff path root, child-ne_root p name, sound.at_root);
    noded = grown-noded;
    named = grown-named;
    children = grown-children;
    parents = grown-parents;
    injective = grown-injective;
    below = grown-below;
  }

  -- A directory stays one.
  pub grown-keeps :
      (i : Inode) (x : DirNode)
      → dir_of t.nodes i ≡ some x
      → (y : DirNode) × (dir_of grown.nodes i ≡ some y)
  grown-keeps i x e = elim (dec parent_inode i) [
    | yes is_parent ↦
        (add_child name t.next_inode d, ap (dir_of grown.nodes) (sym is_parent) ∙ dir_parent)
    | no other ↦
        let old = sound.below i (directory x) (dir_of-some t.nodes i e) in
        (x, dir_old i other (λ f. omega (arith, old, f)) ∙ e)
  ]

  -- No old node turns into a directory.
  pub grown-no_dir :
      (i : Inode) → i < t.next_inode → dir_of t.nodes i ≡ none → dir_of grown.nodes i ≡ none
  grown-no_dir i old e =
      dir_old i (λ f. cc (is_directory, e, ap (dir_of t.nodes) f)) (λ f. omega (arith, old, f)) ∙ e

  -- The new path leads to the new node, the old ones where they led.
  pub grown-path_new : lookup path grown.path_to_inode ≡ some t.next_inode
  grown-path_new = ground (arith, grown-paths path, same_iff path path)

  pub grown-path_old :
      (q : VirtualPath) → path ≢ q → lookup q grown.path_to_inode ≡ lookup q t.path_to_inode
  grown-path_old q apart = ground (arith, grown-paths q, same_iff path q, apart)
