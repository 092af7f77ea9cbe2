-- ===== src/Cache/Tree/Prefix.antt =====
-- What the recursive removal of a directory takes: all paths whose text begins with its text.
use Prim.Native.String
use text.Mathlib.Text.{starts_with}
use text.Mathlib.TextPositions.{starts_with-append}
use text.Mathlib.TextLemmas.{append_assoc as text_append_assoc, append-nil as text_append-nil}
use music_fs.Base.{
  ◌≡◌, refl, sym, ap, ◌∙◌, Bool, true, none, some, List, [], ◌∷◌, ◌++◌, String, arith, same_iff,
  if◌then◌else◌, nat_eq, string_eq,
}
use music_fs.Base.Dict.{lookup, remove, lookup-remove, contains_key}
use music_fs.Core.Types.{FilePath_eq, VirtualPath}
use music_fs.Cache.Tree.{Inode, VirtualTree, is_dir_at, rooted_path}
use music_fs.Cache.Tree.Text.{canonical_text, slashed, of_str}
use music_fs.Cache.Tree.Sound.{child}
use music_fs.Cache.Tree.Shrink.{with_prefix, remove_each, remove_below, remove_directory_recursive}

lookup-with_prefix :
    (texts : VirtualPath → String) (prefix : String) (q : VirtualPath)
    (paths : List (VirtualPath × Inode))
    → lookup q (with_prefix texts prefix paths)
      ≡ (if starts_with (texts q) prefix then lookup q paths else none)
unfolding with_prefix lookup
lookup-with_prefix texts prefix q [] = ground arith
lookup-with_prefix texts prefix q ((p, i) ∷ paths) =
    ground (arith, same_iff p q, lookup-with_prefix texts prefix q paths)

remove_each-paths :
    (q : VirtualPath) (l : List (VirtualPath × Inode)) (t : VirtualTree)
    → lookup q (remove_each l t).0.path_to_inode
      ≡ (if contains_key q l then none else lookup q t.path_to_inode)
unfolding remove_each lookup
remove_each-paths q [] t = refl
remove_each-paths q ((p, i) ∷ l) t =
    let rest =
      remove_each-paths q l
        (record t { path_to_inode = remove p t.path_to_inode; nodes = remove i t.nodes }) in
    ground (arith, rest, lookup-remove q p t.path_to_inode)

-- Removing a directory with all below it takes out exactly the paths whose texts, as the map holds
-- them, begin with the text that was given, whether they lie below it or not; if the path of that
-- text leads to a directory.
pub remove_directory_recursive-paths :
    (texts : VirtualPath → String) (text : String) (t : VirtualTree) (inode : Inode)
    → lookup (of_str text) t.path_to_inode ≡ some inode
    → is_dir_at t.nodes inode ≡ true
    → (q : VirtualPath)
    → lookup q (remove_directory_recursive texts text t).0.path_to_inode
      ≡ (if starts_with (texts q) text then none else lookup q t.path_to_inode)
unfolding remove_directory_recursive remove_below
remove_directory_recursive-paths texts text t inode e f q =
    let taken = with_prefix texts text t.path_to_inode in
    let found = lookup-with_prefix texts text q t.path_to_inode in
    let left = remove_each-paths q taken t in ground (arith, e, f, found, left)

slashed-append :
    (cs : List String) (c s : String)
    → slashed (cs ++ (String.◌++◌ c s ∷ [])) ≡ String.◌++◌ (slashed (cs ++ (c ∷ []))) s
unfolding slashed
slashed-append [] c s =
    ap (String.◌++◌ "/") (text_append-nil (String.◌++◌ c s))
    ∙ (sym (text_append_assoc "/" c s)
        ∙ ap (λ (x : String). String.◌++◌ (String.◌++◌ "/" x) s) (sym (text_append-nil c)))
slashed-append (b ∷ cs) c s =
    ap (λ (x : String). String.◌++◌ "/" (String.◌++◌ b x)) (slashed-append cs c s)
    ∙ (ap (String.◌++◌ "/") (sym (text_append_assoc b (slashed (cs ++ (c ∷ []))) s))
        ∙ sym (text_append_assoc "/" (String.◌++◌ b (slashed (cs ++ (c ∷ [])))) s))

canonical_text-child :
    (p : VirtualPath) (c : String) → canonical_text (child p c) ≡ slashed (p.components ++ (c ∷ []))
unfolding canonical_text
canonical_text-child p c = go p.components
  where
    go :
        (cs : List String)
        → canonical_text (rooted_path (cs ++ (c ∷ []))) ≡ slashed (cs ++ (c ∷ []))
    go [] = refl
    go (d ∷ cs) = refl

-- Removing a directory with all below it also takes out a path beside it whose name begins with the
-- name of the directory; if the directory is given by its canonical text, which is read as its
-- path, and the map holds the canonical text of the path beside it.
pub remove_directory_recursive-sibling :
    (texts : VirtualPath → String) (t : VirtualTree) (p : VirtualPath) (name suffix : String)
    (inode : Inode)
    → of_str (canonical_text (child p name)) ≡ child p name
    → texts (child p (String.◌++◌ name suffix)) ≡ canonical_text (child p (String.◌++◌ name suffix))
    → lookup (child p name) t.path_to_inode ≡ some inode
    → is_dir_at t.nodes inode ≡ true
    → lookup
        (child p (String.◌++◌ name suffix))
        (remove_directory_recursive texts (canonical_text (child p name)) t).0.path_to_inode
      ≡ none
remove_directory_recursive-sibling texts t p name suffix inode read held e f =
    let sibling = child p (String.◌++◌ name suffix) in
    let text : texts sibling ≡ String.◌++◌ (canonical_text (child p name)) suffix =
      held
      ∙ (canonical_text-child p (String.◌++◌ name suffix)
          ∙ (slashed-append p.components name suffix
              ∙ ap (λ (x : String). String.◌++◌ x suffix) (sym (canonical_text-child p name)))) in
    let begins : starts_with (texts sibling) (canonical_text (child p name)) ≡ true =
      ap (λ (x : String). starts_with x (canonical_text (child p name))) text
      ∙ starts_with-append (canonical_text (child p name)) suffix in
    remove_directory_recursive-paths texts (canonical_text (child p name)) t inode
      (ap (λ (x : VirtualPath). lookup x t.path_to_inode) read ∙ e) f sibling
    ∙ ap (λ (b : Bool). if b then none else lookup sibling t.path_to_inode) begins
