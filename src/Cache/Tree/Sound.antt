-- ===== src/Cache/Tree/Sound.antt =====
-- The two views of the tree agree: the map of paths, and the directories with their children.
pub mod Walk
pub mod AddNode
pub mod Grown
pub mod Made
pub mod Inserted
pub mod Removed
pub mod Shrunk
use music_fs.Base.{
  length, length-append, ℕ, suc, ◌+◌, ◌<◌, ◌≡◌, ◌≢◌, refl, sym, ap, ◌∙◌, Bool, true, false, Option,
  none, some, List, [], ◌∷◌, ◌++◌, String, nat_eq, string_eq, same, same_iff, arith, if◌then◌else◌,
  Option-cases, inl, inr,
}
use music_fs.Base.Dict.{lookup, insert, remove, lookup-insert, lookup-remove}
use music_fs.Base.Words.{u64_mod}
use music_fs.Core.Types.{FilePath, FilePath_eq, VirtualPath}
use music_fs.Cache.Tree.{
  ends_in_dots, file_name, Inode, root_inode, root, rooted_path, DirNode, VirtualNode, directory,
  file, VirtualTree, init, last_or, parent, parent_dir, parent_or_root, last_name, node_name,
  dir_of,
}

-- The path of a name in a directory.
abbrev pub child : VirtualPath → String → VirtualPath
child p name = rooted_path (p.components ++ (name ∷ []))

pub record IsTree (t : VirtualTree) : Type 0 where
  pub rooted : (p : VirtualPath) (i : Inode) → lookup p t.path_to_inode ≡ some i → p.rooted ≡ true
  pub at_root : lookup root t.path_to_inode ≡ some root_inode
  -- Every path has a node.
  pub noded :
      (p : VirtualPath) (i : Inode)
      → lookup p t.path_to_inode ≡ some i
      → (n : VirtualNode) × (lookup i t.nodes ≡ some n)
  -- A node has the name of its path.
  pub named :
      (p : VirtualPath) (i : Inode) (n : VirtualNode)
      → lookup p t.path_to_inode ≡ some i
      → lookup i t.nodes ≡ some n
      → node_name n ≡ last_name p
  -- The children of a directory are the paths one component longer.
  pub children :
      (p : VirtualPath) (i : Inode) (d : DirNode) (name : String)
      → lookup p t.path_to_inode ≡ some i
      → dir_of t.nodes i ≡ some d
      → lookup name d.children ≡ lookup (child p name) t.path_to_inode
  -- What has a path lies in a directory.
  pub parents :
      (p : VirtualPath) (name : String) (i : Inode)
      → p.rooted ≡ true
      → lookup (child p name) t.path_to_inode ≡ some i
      → (j : Inode) × (d : DirNode) × (lookup p t.path_to_inode ≡ some j)
        × (dir_of t.nodes j ≡ some d)
  -- No two paths share an inode.
  pub injective :
      (p q : VirtualPath) (i : Inode)
      → lookup p t.path_to_inode ≡ some i
      → lookup q t.path_to_inode ≡ some i
      → p ≡ q
  -- Every inode was given out by the counter.
  pub below : (i : Inode) (n : VirtualNode) → lookup i t.nodes ≡ some n → i < t.next_inode

pub init-append : (cs : List String) (c : String) → init (cs ++ (c ∷ [])) ≡ cs
unfolding init
init-append [] c = refl
init-append (b ∷ []) c = refl
init-append (b ∷ d ∷ cs) c = ap (λ (x : List String). b ∷ x) (init-append (d ∷ cs) c)

pub last_or-append :
    (default : String) (cs : List String) (c : String) → last_or default (cs ++ (c ∷ [])) ≡ c
unfolding last_or
last_or-append default [] c = refl
last_or-append default (b ∷ cs) c = last_or-append b cs c

-- A path that is no root is a child of its parent.
pub append-init-last_or :
    (default c : String) (cs : List String)
    → init (c ∷ cs) ++ (last_or default (c ∷ cs) ∷ []) ≡ c ∷ cs
unfolding init last_or
append-init-last_or default c [] = refl
append-init-last_or default c (d ∷ cs) =
    ap (λ (x : List String). c ∷ x) (append-init-last_or c d cs)

pub dir_of_directory :
    (nodes : List (Inode × VirtualNode)) (i : Inode) (d : DirNode)
    → lookup i nodes ≡ some (directory d)
    → dir_of nodes i ≡ some d
unfolding dir_of
dir_of_directory nodes i d e = ground (arith, e)

pub dir_of-some :
    (nodes : List (Inode × VirtualNode)) (i : Inode) {d : DirNode}
    → dir_of nodes i ≡ some d
    → lookup i nodes ≡ some (directory d)
unfolding dir_of
dir_of-some nodes i {d} e = go (lookup i nodes) refl e
  where
    go :
        (o : Option VirtualNode)
        → lookup i nodes ≡ o
        → (elim o [ none ↦ none | some n ↦ elim n [ directory x ↦ some x | file f ↦ none ] ])
          ≡ some d
        → lookup i nodes ≡ some (directory d)
    go none q r = cc
    go (some (directory x)) q r = q ∙ ap some (ap directory (cc r))
    go (some (file f)) q r = cc

pub child_injective :
    (p q : VirtualPath) (m n : String)
    → child p m ≡ child q n
    → (p.components ≡ q.components) × (m ≡ n)
child_injective p q m n e =
    let whole : p.components ++ (m ∷ []) ≡ q.components ++ (n ∷ []) =
      ap (λ (x : VirtualPath). x.components) e in
    (
      sym (init-append p.components m) ∙ (ap init whole ∙ init-append q.components n),
      sym (last_or-append "" p.components m)
          ∙ (ap (last_or "") whole ∙ last_or-append "" q.components n),
    )

pub path-eq : (p q : VirtualPath) → p.rooted ≡ q.rooted → p.components ≡ q.components → p ≡ q
path-eq p q e f = λ i. record { rooted = e i; components = f i }

pub child-ne_root : (p : VirtualPath) (name : String) → child p name ≢ root
child-ne_root p name e = go p.components (ap (λ (x : VirtualPath). x.components) e)
  where
    go : (cs : List String) → cs ++ (name ∷ []) ≢ []
    go [] f = cc
    go (c ∷ cs) f = cc

pub child-ne_self : (p : VirtualPath) (name : String) → child p name ≢ p
child-ne_self p name e = go p.components (ap (λ (x : VirtualPath). length x.components) e)
  where
    go : (cs : List String) → length (cs ++ (name ∷ [])) ≢ length cs
    go cs f = omega (arith, f, length-append cs (name ∷ []))

pub inode_below :
    (t : VirtualTree)
    → IsTree t
    → (p : VirtualPath) (i : Inode) → lookup p t.path_to_inode ≡ some i
    → i < t.next_inode
inode_below t sound p i e = let (n, there) = sound.noded p i e in sound.below i n there

-- What `Path::file_name` gives of a path that does not end in `..`.
pub file_name-last_name : (p : VirtualPath) → ends_in_dots p ≡ false → file_name p ≡ last_name p
unfolding file_name
file_name-last_name p plain = ground (arith, plain)

pub last_name-child : (p : VirtualPath) (name : String) → last_name (child p name) ≡ name
unfolding last_name
last_name-child p name = last_or-append "" p.components name

-- A path with components is a name in the path of its parent.
pub child-last_name :
    (p : VirtualPath) (c : String) (cs : List String)
    → p.rooted ≡ true
    → p.components ≡ c ∷ cs
    → child (rooted_path (init (c ∷ cs))) (last_name p) ≡ p
unfolding last_name
child-last_name p c cs rooted parts =
    path-eq (child (rooted_path (init (c ∷ cs))) (last_name p)) p (sym rooted) (
      ap (λ (x : List String). init (c ∷ cs) ++ (last_or "" x ∷ [])) parts
      ∙ (append-init-last_or "" c cs ∙ sym parts))

pub parent_or_root-eq :
    (p : VirtualPath) (c : String) (cs : List String)
    → p.rooted ≡ true
    → p.components ≡ c ∷ cs
    → parent_or_root p ≡ rooted_path (init (c ∷ cs))
unfolding parent_or_root parent
parent_or_root-eq p c cs rooted parts =
    ap (λ (q : VirtualPath). parent_or_root q) (path-eq p (rooted_path (c ∷ cs)) rooted parts)
