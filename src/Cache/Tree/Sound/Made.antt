-- ===== src/Cache/Tree/Sound/Made.antt =====
-- The directories made on the way to a path.
use music_fs.Cache.Tree.{
  with_policy, RefreshPolicy, root_inode, Inode, rooted_path, DirNode, directory, VirtualTree,
  dir_of, after_alloc,
}
use music_fs.Cache.Tree.Sound.Grown.{only_root, add_dir-IsTree, bare_directory}
use music_fs.Base.{
  ◌+◌, ◌<◌, ◌≤◌, ◌≡◌, refl, sym, ap, ◌∙◌, none, some, List, [], ◌∷◌, ◌++◌, String, nat_eq,
  string_eq, same, same_iff, arith, Option-cases, Bool-cases, inl, inr, length, append_assoc,
  append-nil, length-append,
}
use mathlib.Core.Option.{some-injective}
use mathlib.Core.Path.{subst}
use music_fs.Base.Dict.{lookup}
use music_fs.Base.Words.{u64_mod}
use music_fs.Core.Types.{FilePath_eq, VirtualPath, SystemTime}
use music_fs.Cache.Tree.Grow.{add_node, add_dir, make_dirs}
use music_fs.Cache.Tree.Sound.{IsTree, dir_of_directory}
use music_fs.Cache.Tree.Sound.AddNode.{
  grown-path_new, grown-path_old, grown-node_new, grown-keeps, grown-no_dir,
}

-- What is at a path, if anything, is a directory.
abbrev pub DirOnly : VirtualTree → VirtualPath → Type 0
DirOnly t p =
    (i : Inode) → lookup p t.path_to_inode ≡ some i → (d : DirNode) × (dir_of t.nodes i ≡ some d)

-- No file is on the way.
abbrev pub Passable : VirtualTree → List String → List String → Type 0
Passable t walked cs =
    (front back : List String) → front ++ back ≡ cs → DirOnly t (rooted_path (walked ++ front))

abbrev root_dir : SystemTime → DirNode
root_dir now = record {
  inode = root_inode;
  parent = root_inode;
  name = "";
  children = [];
  mtime = now;
}

-- In the first tree only the root is there.
pub with_policy-DirOnly :
    (now : SystemTime) (policy : RefreshPolicy) (q : VirtualPath)
    → DirOnly (with_policy now policy) q
unfolding with_policy dir_of lookup
with_policy-DirOnly now policy q i e =
    (root_dir now, ap (dir_of (with_policy now policy).nodes) (only_root now policy q i e).1)

-- What making directories gives.
pub record Made (t : VirtualTree) (cs : List String) (t' : VirtualTree) (inode : Inode)
    : Type 0 where
  pub sound : IsTree t'
  pub there : lookup (rooted_path cs) t'.path_to_inode ≡ some inode
  pub is_directory : (d : DirNode) × (dir_of t'.nodes inode ≡ some d)
  -- Longer paths lead where they led.
  pub beyond :
      (q : VirtualPath)
      → length cs < length q.components
      → lookup q t'.path_to_inode ≡ lookup q t.path_to_inode
  pub kept :
      (q : VirtualPath) (i : Inode)
      → lookup q t.path_to_inode ≡ some i
      → lookup q t'.path_to_inode ≡ some i
  pub no_dir : (i : Inode) → i < t.next_inode → dir_of t.nodes i ≡ none → dir_of t'.nodes i ≡ none
  pub grows : t.next_inode ≤ t'.next_inode

after_alloc-room : (t : VirtualTree) → t.next_inode + 1 < u64_mod → after_alloc t ≡ t.next_inode + 1
unfolding after_alloc
after_alloc-room t room = omega (arith, room)

after_alloc-few : (t : VirtualTree) → after_alloc t ≤ t.next_inode + 1
unfolding after_alloc
after_alloc-few t = omega arith

module _ (now : SystemTime) (t : VirtualTree) (sound : IsTree t) (walked : List String) (c : String)
    (current : Inode) (d : DirNode)
    (here : lookup (rooted_path walked) t.path_to_inode ≡ some current)
    (is_directory : dir_of t.nodes current ≡ some d)
    (absent : lookup (rooted_path (walked ++ (c ∷ []))) t.path_to_inode ≡ none)
    (room : t.next_inode + 1 < u64_mod) where
  abbrev path : VirtualPath
  path = rooted_path (walked ++ (c ∷ []))

  abbrev t1 : VirtualTree
  t1 = add_dir now current c path t

  abbrev node : DirNode
  node = record { inode = t.next_inode; parent = current; name = c; children = []; mtime = now }

  free : (i : Inode) → lookup path t.path_to_inode ≡ some i → dir_of t.nodes i ≡ none
  free i e = cc

  bare : (e : DirNode) → directory node ≡ directory e → e.children ≡ []
  bare = bare_directory now t.next_inode current c

  -- One step of the loop.
  pub add_dir-Made : Made t (walked ++ (c ∷ [])) t1 t.next_inode
  unfolding add_dir
  add_dir-Made = record {
    sound =
        add_dir-IsTree t sound room now current (rooted_path walked) c d here is_directory absent;
    there =
        grown-path_new t sound (rooted_path walked) c (directory node) current d here is_directory
          free bare refl room;
    is_directory = (
      node,
      dir_of_directory t1.nodes t.next_inode node (
          grown-node_new t sound (rooted_path walked) c (directory node) current d here is_directory
            free bare refl room),
    );
    beyond = λ q longer.
        grown-path_old t sound (rooted_path walked) c (directory node) current d here is_directory
          free bare refl room q
          (λ e. omega (arith, longer, ap (λ (x : VirtualPath). length x.components) e));
    kept = λ q i e.
        grown-path_old t sound (rooted_path walked) c (directory node) current d here is_directory
          free bare refl room q
          (λ f. cc (absent, e, ap (λ (x : VirtualPath). lookup x t.path_to_inode) f))
        ∙ e;
    no_dir =
        grown-no_dir t sound (rooted_path walked) c (directory node) current d here is_directory
          free bare refl room;
    grows = omega (arith, after_alloc-room t room);
  }

  -- What was passable stays so.
  pub add_dir-DirOnly : (q : VirtualPath) → DirOnly t q → DirOnly t1 q
  unfolding add_dir
  add_dir-DirOnly q before i e = elim (Bool-cases (same path q)) [
    | inl at_path ↦
        let is_new : some t.next_inode ≡ some i =
          sym add_dir-Made.there
          ∙ (ap (λ (x : VirtualPath). lookup x t1.path_to_inode) ((same_iff path q).0 at_path)
              ∙ e) in
        (
          add_dir-Made.is_directory.0,
          ap (dir_of t1.nodes) (sym (some-injective t.next_inode i is_new))
              ∙ add_dir-Made.is_directory.1,
        )
    | inr apart ↦
        let old : lookup q t.path_to_inode ≡ some i =
          sym (
            grown-path_old t sound (rooted_path walked) c (directory node) current d here
              is_directory free bare refl room q (λ f. cc ((same_iff path q).1 f, apart)))
          ∙ e in
        let (x, was) = before i old in
        grown-keeps t sound (rooted_path walked) c (directory node) current d here is_directory free
          bare refl room i x was
  ]

  make_dirs-absent :
      (cs : List String)
      → make_dirs now walked (c ∷ cs) current t
        ≡ make_dirs now (walked ++ (c ∷ [])) cs t.next_inode t1
  unfolding make_dirs
  make_dirs-absent cs = ground (arith, absent)

add_dir-few :
    (now : SystemTime) (current : Inode) (c : String) (p : VirtualPath) (t : VirtualTree)
    → (add_dir now current c p t).next_inode ≤ t.next_inode + 1
unfolding add_dir add_node
add_dir-few now current c p t = after_alloc-few t

make_dirs-present :
    (now : SystemTime) (t : VirtualTree) (walked : List String) (c : String) (cs : List String)
    (current existing : Inode)
    → lookup (rooted_path (walked ++ (c ∷ []))) t.path_to_inode ≡ some existing
    → make_dirs now walked (c ∷ cs) current t ≡ make_dirs now (walked ++ (c ∷ [])) cs existing t
unfolding make_dirs
make_dirs-present now t walked c cs current existing e = ground (arith, e)

pub make_dirs-few :
    (now : SystemTime) (walked cs : List String) (current : Inode) (t : VirtualTree)
    → (make_dirs now walked cs current t).0.next_inode ≤ t.next_inode + length cs
unfolding make_dirs
make_dirs-few now walked [] current t = omega arith
make_dirs-few now walked (c ∷ cs) current t =
    elim (Option-cases (lookup (rooted_path (walked ++ (c ∷ []))) t.path_to_inode)) [
      | inl e ↦
          let rest =
            make_dirs-few now (walked ++ (c ∷ [])) cs t.next_inode
              (add_dir now current c (rooted_path (walked ++ (c ∷ []))) t) in
          ground (arith, e, rest, add_dir-few now current c (rooted_path (walked ++ (c ∷ []))) t)
      | inr (existing, e) ↦
          let rest = make_dirs-few now (walked ++ (c ∷ [])) cs existing t in ground (arith, e, rest)
    ]

Made-refl :
    (t : VirtualTree)
    → IsTree t
    → (cs : List String) (inode : Inode) → lookup (rooted_path cs) t.path_to_inode ≡ some inode
    → (d : DirNode) × (dir_of t.nodes inode ≡ some d)
    → Made t cs t inode
Made-refl t sound cs inode there is_directory = record {
  sound = sound;
  there = there;
  is_directory = is_directory;
  beyond = λ q longer. refl;
  kept = λ q i e. e;
  no_dir = λ i old e. e;
  grows = omega arith;
}

Made-trans :
    (t u v : VirtualTree) (front cs : List String) (i j : Inode)
    → length front ≤ length cs
    → Made t front u i
    → Made u cs v j
    → Made t cs v j
Made-trans t u v front cs i j shorter first second = record {
  sound = second.sound;
  there = second.there;
  is_directory = second.is_directory;
  beyond = λ q longer. second.beyond q longer ∙ first.beyond q (omega (arith, longer, shorter));
  kept = λ q k e. second.kept q k (first.kept q k e);
  no_dir = λ k old e. second.no_dir k (omega (arith, old, first.grows)) (first.no_dir k old e);
  grows = omega (arith, first.grows, second.grows);
}

Passable-step :
    (t : VirtualTree) (walked : List String) (c : String) (cs : List String)
    → Passable t walked (c ∷ cs)
    → Passable t (walked ++ (c ∷ [])) cs
Passable-step t walked c cs clear front back e =
    subst (λ (x : List String). DirOnly t (rooted_path x))
      (sym (append_assoc walked (c ∷ []) front))
      (clear (c ∷ front) back (ap (λ (x : List String). c ∷ x) e))

-- If no file is on the way and enough inodes are left, the loop ends at a directory at the path, and
-- keeps the two views together.
pub make_dirs-Made :
    (now : SystemTime) (cs walked : List String) (current : Inode) (t : VirtualTree)
    → IsTree t
    → lookup (rooted_path walked) t.path_to_inode ≡ some current
    → (d : DirNode) × (dir_of t.nodes current ≡ some d)
    → Passable t walked cs
    → t.next_inode + length cs < u64_mod
    → Made t
        (walked ++ cs)
        (make_dirs now walked cs current t).0
        (make_dirs now walked cs current t).1
unfolding make_dirs
make_dirs-Made now [] walked current t sound here is_directory clear room =
    subst (λ (x : List String). Made t x t current) (sym (append-nil walked))
      (Made-refl t sound walked current here is_directory)
make_dirs-Made now (c ∷ cs) walked current t sound here (d, is_directory) clear room =
    elim (Option-cases (lookup (rooted_path (walked ++ (c ∷ []))) t.path_to_inode)) [
      | inr (existing, e) ↦
          let rest =
            make_dirs-Made now cs (walked ++ (c ∷ [])) existing t sound e
              (clear (c ∷ []) cs refl existing e) (Passable-step t walked c cs clear)
              (omega (arith, room)) in
          rw (make_dirs-present now t walked c cs current existing e) (
            subst
              (λ (x : List String).
                Made t x (make_dirs now (walked ++ (c ∷ [])) cs existing t).0
                  (make_dirs now (walked ++ (c ∷ [])) cs existing t).1)
              (append_assoc walked (c ∷ []) cs) rest)
      | inl e ↦
          let first =
            add_dir-Made now t sound walked c current d here is_directory e (omega (arith, room)) in
          let t1 = add_dir now current c (rooted_path (walked ++ (c ∷ []))) t in
          let rest =
            make_dirs-Made now cs (walked ++ (c ∷ [])) t.next_inode t1 first.sound first.there
              first.is_directory
              (λ front back f.
                add_dir-DirOnly now t sound walked c current d here is_directory e
                  (omega (arith, room)) (rooted_path ((walked ++ (c ∷ [])) ++ front))
                  (Passable-step t walked c cs clear front back f))
              (omega
                (arith, room, add_dir-few now current c (rooted_path (walked ++ (c ∷ []))) t)) in
          rw
            (make_dirs-absent now t sound walked c current d here is_directory e
              (omega (arith, room)) cs)
            (subst
              (λ (x : List String).
                Made t x (make_dirs now (walked ++ (c ∷ [])) cs t.next_inode t1).0
                  (make_dirs now (walked ++ (c ∷ [])) cs t.next_inode t1).1)
              (append_assoc walked (c ∷ []) cs)
              (Made-trans t t1 (make_dirs now (walked ++ (c ∷ [])) cs t.next_inode t1).0
                (walked ++ (c ∷ [])) ((walked ++ (c ∷ [])) ++ cs) t.next_inode
                (make_dirs now (walked ++ (c ∷ [])) cs t.next_inode t1).1
                (omega (arith, length-append (walked ++ (c ∷ [])) cs)) first rest))
    ]
