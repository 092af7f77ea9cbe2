-- ===== src/Cache/Tree/Sound/Grown.antt =====
-- The operations that add nodes keep the two views of the tree together.
use mathlib.Core.Option.{some-injective}
use music_fs.Cache.Tree.{
  file_name, ends_in_dots, node_name, Inode, root_inode, root, DirNode, VirtualNode, directory,
  file, VirtualTree, dir_of, is_dir_at, is_dir, init, last_or, parent_dir, parent, last_name,
  with_policy, RefreshPolicy,
}
use music_fs.Cache.Tree.Sound.{
  file_name-last_name, child-ne_root, IsTree, child, path-eq, append-init-last_or, dir_of_directory,
}
use mathlib.Core.Path.{subst}
use music_fs.Base.{
  sym, ◌∙◌, [], ◌∷◌, ◌++◌, inl, inr, Option-cases, Bool-cases, none, ◌≢◌, ◌+◌, ◌<◌, ◌≡◌, refl, ap,
  Bool, true, false, Option, some, List, String, nat_eq, string_eq, same_iff, arith,
}
use music_fs.Base.Dict.{lookup}
use music_fs.Base.Words.{u64_mod}
use music_fs.Core.Types.{FilePath_eq, VirtualPath, SystemTime}
use music_fs.Cache.Tree.Grow.{add_dir, mkdir}
use music_fs.Cache.Tree.Sound.AddNode.{add_node-IsTree}

is_dir_at-dir_of :
    (nodes : List (Inode × VirtualNode)) (i : Inode)
    → is_dir_at nodes i ≡ true
    → (d : DirNode) × (dir_of nodes i ≡ some d)
unfolding is_dir_at is_dir dir_of
is_dir_at-dir_of nodes i e = go (lookup i nodes) refl e
  where
    go :
        (o : Option VirtualNode)
        → lookup i nodes ≡ o
        → (elim o [ none ↦ false | some n ↦ is_dir n ]) ≡ true
        → (d : DirNode) × (dir_of nodes i ≡ some d)
    go none q r = cc
    go (some (directory x)) q r = (x, dir_of_directory nodes i x q)
    go (some (file f)) q r = cc

components-parent_dir :
    (r : Bool) (cs : List String)
    → (parent_dir (record { rooted = r; components = cs })).components ≡ init cs
unfolding parent_dir parent init
components-parent_dir r [] = refl
components-parent_dir r (c ∷ []) = refl
components-parent_dir r (c ∷ d ∷ cs) = refl

-- A path that is no root is a name in its parent.
pub child-parent_dir :
    (p : VirtualPath) → p.rooted ≡ true → p.components ≢ [] → child (parent_dir p) (last_name p) ≡ p
unfolding last_name
child-parent_dir p rooted some_left =
    path-eq (child (parent_dir p) (last_name p)) p (sym rooted) (go p.components refl)
  where
    go :
        (cs : List String)
        → p.components ≡ cs
        → (parent_dir p).components ++ (last_or "" p.components ∷ []) ≡ p.components
    go [] e = absurd (some_left e)
    go (c ∷ cs) e =
        let parts = append-init-last_or "" c cs in
        let front = components-parent_dir p.rooted p.components in
        cc (front, parts, e, ap (λ (x : List String). init x ++ (last_or "" x ∷ [])) e)

pub only_root :
    (now : SystemTime) (policy : RefreshPolicy) (p : VirtualPath) (i : Inode)
    → lookup p (with_policy now policy).path_to_inode ≡ some i
    → (root ≡ p) × (i ≡ root_inode)
unfolding with_policy lookup
only_root now policy p i e = ground (arith, e, same_iff root p)

abbrev children_of : VirtualNode → List (String × Inode)
children_of (directory d) = d.children
children_of (file f) = []

only_dir :
    (now : SystemTime) (policy : RefreshPolicy) (d : DirNode)
    → dir_of (with_policy now policy).nodes root_inode ≡ some d
    → d.children ≡ []
unfolding with_policy lookup dir_of
only_dir now policy d e = sym (
    ap
      (λ (o : Option DirNode). elim o as (λ _. List (String × Inode)) [
        | none ↦ []
        | some x ↦ x.children
      ])
      e)

only_root_child :
    (now : SystemTime) (policy : RefreshPolicy) (p : VirtualPath) (name : String)
    → lookup (child p name) (with_policy now policy).path_to_inode ≡ none
only_root_child now policy p name =
    elim (Option-cases (lookup (child p name) (with_policy now policy).path_to_inode)) [
      | inl e ↦ e
      | inr (i, e) ↦ absurd (child-ne_root p name (sym (only_root now policy (child p name) i e).0))
    ]

-- In the tree that is new the two views agree.
pub with_policy-IsTree :
    (now : SystemTime) (policy : RefreshPolicy) → IsTree (with_policy now policy)
unfolding with_policy lookup dir_of last_name last_or
with_policy-IsTree now policy = record {
  rooted = λ p i e. ap (λ (x : VirtualPath). x.rooted) (sym (only_root now policy p i e).0);
  at_root = refl;
  noded = λ p i e.
      let (_, q) = only_root now policy p i e in
      (
        directory (record {
          inode = root_inode;
          parent = root_inode;
          name = "";
          children = [];
          mtime = now;
        }),
        ground (arith, q),
      );
  named = λ p i n e f.
      let (q, r) = only_root now policy p i e in
      let n_is : directory (record {
        inode = root_inode;
        parent = root_inode;
        name = "";
        children = [];
        mtime = now;
      })
          ≡ n =
        some-injective _ n
          (ap (λ (x : Inode). lookup x (with_policy now policy).nodes) (sym r) ∙ f) in
      ap node_name (sym n_is) ∙ ap last_name q;
  children = λ p i d name e f.
      let (_, r) = only_root now policy p i e in
      let bare : d.children ≡ [] =
        only_dir now policy d (ap (dir_of (with_policy now policy).nodes) (sym r) ∙ f) in
      ap (λ (x : List (String × Inode)). lookup name x) bare
      ∙ sym (only_root_child now policy p name);
  parents = λ p name i r e.
      absurd (child-ne_root p name (sym (only_root now policy (child p name) i e).0));
  injective = λ p q i e f. sym (only_root now policy p i e).0 ∙ (only_root now policy q i f).0;
  below = λ i n e. ground (arith, e);
}

pub bare_directory :
    (now : SystemTime) (i j : Inode) (name : String) (e : DirNode)
    → directory (record { inode = i; parent = j; name = name; children = []; mtime = now })
      ≡ directory e
    → e.children ≡ []
bare_directory now i j name e p = sym (ap children_of p)

module _ (t : VirtualTree) (sound : IsTree t) (room : t.next_inode + 1 < u64_mod) where
  -- A directory that is new keeps the two views together.
  pub add_dir-IsTree :
      (now : SystemTime) (parent_inode : Inode) (p : VirtualPath) (name : String) (d : DirNode)
      → lookup p t.path_to_inode ≡ some parent_inode
      → dir_of t.nodes parent_inode ≡ some d
      → lookup (child p name) t.path_to_inode ≡ none
      → IsTree (add_dir now parent_inode name (child p name) t)
  unfolding add_dir
  add_dir-IsTree now parent_inode p name d here is_directory absent =
      add_node-IsTree t sound p name _ parent_inode d here is_directory (λ i e. cc)
        (bare_directory now t.next_inode parent_inode name) refl room

  -- Mkdir, whether it fails or not, keeps the two views of the tree in agreement, if the path is
  -- rooted and does not end in two dots, and an inode is left.
  pub mkdir-IsTree :
      (now : SystemTime) (path : VirtualPath)
      → path.rooted ≡ true
      → ends_in_dots path ≡ false
      → IsTree (mkdir now path t).0
  unfolding mkdir
  mkdir-IsTree now path rooted plain = elim (Option-cases (lookup path t.path_to_inode)) [
    | inr (i, e) ↦
        let same_tree : (mkdir now path t).0 ≡ t = ground (arith, e) in rw same_tree sound
    | inl e ↦ elim (Option-cases (lookup (parent_dir path) t.path_to_inode)) [
      | inl f ↦
          let same_tree : (mkdir now path t).0 ≡ t = ground (arith, e, f) in rw same_tree sound
      | inr (parent_inode, f) ↦ elim (Bool-cases (is_dir_at t.nodes parent_inode)) [
        | inr g ↦
            let same_tree : (mkdir now path t).0 ≡ t = ground (arith, e, f, g) in rw same_tree sound
        | inl g ↦
            let (d, is_directory) = is_dir_at-dir_of t.nodes parent_inode g in
            let whole : child (parent_dir path) (last_name path) ≡ path =
              child-parent_dir path rooted (λ q. cc (
                e,
                sound.at_root,
                ap (λ (x : VirtualPath). lookup x t.path_to_inode) (path-eq path root rooted q),
              )) in
            let made : (mkdir now path t).0 ≡ add_dir now parent_inode (last_name path) path t =
              let first : (mkdir now path t).0 ≡ add_dir now parent_inode (file_name path) path t =
                ground (arith, e, f, g) in
              first
              ∙ ap (λ (n : String). add_dir now parent_inode n path t)
                  (file_name-last_name path plain) in
            let grown =
              add_dir-IsTree now parent_inode (parent_dir path) (last_name path) d f is_directory
                (ap (λ (x : VirtualPath). lookup x t.path_to_inode) whole ∙ e) in
            rw made (
              subst (λ (x : VirtualPath). IsTree (add_dir now parent_inode (last_name path) x t))
                whole grown)
      ]
    ]
  ]
