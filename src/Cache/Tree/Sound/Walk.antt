-- ===== src/Cache/Tree/Sound/Walk.antt =====
-- Walking from the root, child by child, finds what the map of paths has.
use music_fs.Base.{
  ◌≡◌, refl, sym, ap, ◌∙◌, Option, none, some, List, [], ◌∷◌, ◌++◌, append-nil, append_assoc,
  String, nat_eq, string_eq, arith, Option-cases, inl, inr,
}
use music_fs.Base.Dict.{lookup}
use music_fs.Core.Types.{FilePath_eq}
use music_fs.Cache.Tree.{Inode, root_inode, rooted_path, VirtualTree, dir_of, lookup_name}
use music_fs.Cache.Tree.Sound.{IsTree}

-- The walk of the kernel: one `lookup` for each component.
abbrev pub walk : VirtualTree → Inode → List String → Option Inode
walk t i [] = some i
walk t i (c ∷ cs) = elim (lookup_name t i c) [ none ↦ none | some j ↦ walk t j cs ]

module _ (t : VirtualTree) (sound : IsTree t) where
  -- Below a path that is missing everything is missing.
  missing_below :
      (before cs : List String)
      → lookup (rooted_path before) t.path_to_inode ≡ none
      → lookup (rooted_path (before ++ cs)) t.path_to_inode ≡ none
  missing_below before [] e =
      ap (λ (x : List String). lookup (rooted_path x) t.path_to_inode) (append-nil before) ∙ e
  missing_below before (c ∷ cs) e =
      let gone : lookup (rooted_path (before ++ (c ∷ []))) t.path_to_inode ≡ none =
        elim (Option-cases (lookup (rooted_path (before ++ (c ∷ []))) t.path_to_inode)) [
          | inl absent ↦ absent
          | inr (i, there) ↦
              let (j, d, here, _) = sound.parents (rooted_path before) c i refl there in
              absurd (cc (here, e))
        ] in
      ap (λ (x : List String). lookup (rooted_path x) t.path_to_inode)
        (sym (append_assoc before (c ∷ []) cs))
      ∙ missing_below (before ++ (c ∷ [])) cs gone

  -- `lookup` of a name in what a path stands for is the path of the name.
  pub lookup_name-child :
      (before : List String) (c : String) (i : Inode)
      → lookup (rooted_path before) t.path_to_inode ≡ some i
      → lookup_name t i c ≡ lookup (rooted_path (before ++ (c ∷ []))) t.path_to_inode
  unfolding lookup_name
  lookup_name-child before c i here = elim (Option-cases (dir_of t.nodes i)) [
    | inr (d, e) ↦
        let found = sound.children (rooted_path before) i d c here e in ground (arith, e, found)
    | inl e ↦ elim (Option-cases (lookup (rooted_path (before ++ (c ∷ []))) t.path_to_inode)) [
      | inl absent ↦ ground (arith, e, absent)
      | inr (k, there) ↦
          let (j, d, here', e') = sound.parents (rooted_path before) c k refl there in
          let p : some j ≡ some i = cc (here, here') in
          let q : dir_of t.nodes i ≡ some d = ground (arith, p, e') in absurd (cc (q, e))
    ]
  ]

  walk-lookup :
      (before cs : List String) (i : Inode)
      → lookup (rooted_path before) t.path_to_inode ≡ some i
      → walk t i cs ≡ lookup (rooted_path (before ++ cs)) t.path_to_inode
  walk-lookup before [] i here =
      sym (
        ap (λ (x : List String). lookup (rooted_path x) t.path_to_inode) (append-nil before) ∙ here)
  walk-lookup before (c ∷ cs) i here =
      elim (Option-cases (lookup (rooted_path (before ++ (c ∷ []))) t.path_to_inode)) [
        | inl absent ↦
            let step = lookup_name-child before c i here in
            let gone = missing_below (before ++ (c ∷ [])) cs absent in
            let same_path =
              ap (λ (x : List String). lookup (rooted_path x) t.path_to_inode)
                (append_assoc before (c ∷ []) cs) in
            ground (arith, step, absent, gone, same_path)
        | inr (j, there) ↦
            let step = lookup_name-child before c i here in
            let later = walk-lookup (before ++ (c ∷ [])) cs j there in
            let same_path =
              ap (λ (x : List String). lookup (rooted_path x) t.path_to_inode)
                (append_assoc before (c ∷ []) cs) in
            ground (arith, step, there, later, same_path)
      ]

  -- In a tree whose two views agree, looking up one name after the other from the root finds what
  -- the map of paths has for the path, and nothing if it has nothing.
  pub walk-path :
      (cs : List String) → walk t root_inode cs ≡ lookup (rooted_path cs) t.path_to_inode
  walk-path cs = walk-lookup [] cs root_inode sound.at_root
