-- ===== src/Tests/Trees.antt =====
-- The theorems of the virtual tree, at a tree with one file and one directory.
use music_fs.Base.{◌≡◌, refl, none, some, [], ◌∷◌, ok, err, arith, nat_eq, list_eq, string_eq}
use music_fs.Base.Dict.{lookup, insert, remove}
use music_fs.Core.Types.{FilePath_eq, FileMeta, after_epoch}
use music_fs.Cache.Tree.{
  VirtualTree, Inode, with_policy, default_policy, root_inode, root, rooted_path, init, last_or,
  last_name, ends_in_dots, file_name, dir_of, change_dir, after_alloc, parent, parent_or_root,
  parent_dir, is_dir, is_dir_at, lookup_name,
}
use music_fs.Cache.Tree.Text.{canonical_text, slashed, of_str, split_from, starts_rooted}
use music_fs.Cache.Tree.Grow.{add_node, add_dir, make_dirs, ensure_parents, insert_file, mkdir}
use music_fs.Cache.Tree.Shrink.{
  detach, remove_file, remove_directory, with_prefix, remove_each, remove_below, not_empty,
  remove_directory_recursive,
}
use music_fs.Cache.Tree.Sound.{IsTree}
use music_fs.Cache.Tree.Sound.Walk.{walk, walk-path}
use music_fs.Cache.Tree.Sound.Grown.{with_policy-IsTree, mkdir-IsTree}
use music_fs.Cache.Tree.Sound.Made.{with_policy-DirOnly}
use music_fs.Cache.Tree.Sound.Inserted.{Placed, insert_file-Placed}
use music_fs.Cache.Tree.Sound.Shrunk.{Gone, Answers, remove_file-Gone, remove_directory-cases}
use music_fs.Cache.Tree.Prefix.{
  remove_directory_recursive-paths, remove_directory_recursive-sibling,
}

program : Unit {0}
unfolding lookup insert remove with_policy init last_or last_name ends_in_dots file_name dir_of
    change_dir after_alloc parent parent_or_root parent_dir is_dir is_dir_at lookup_name
    canonical_text slashed of_str split_from starts_rooted add_node add_dir make_dirs ensure_parents
    insert_file mkdir detach remove_file remove_directory with_prefix remove_each remove_below
    remove_directory_recursive
program = tt

abbrev bare_tree : VirtualTree
bare_tree = with_policy (after_epoch 0) default_policy

abbrev song : FileMeta
song = record {
  id = 7;
  virtual_path = rooted_path ("Rock" ∷ "song.flac" ∷ []);
  real_path = record { origin_id = "disk"; path = rooted_path ("song.flac" ∷ []) };
  size = 5;
  mtime = after_epoch 3;
  content_hash = none;
  audio = none;
}

abbrev song_tree : VirtualTree
song_tree = (insert_file (after_epoch 1) song bare_tree).0

no_song :
    (i : Inode)
    → lookup song.virtual_path bare_tree.path_to_inode ≡ some i
    → dir_of bare_tree.nodes i ≡ none
unfolding program
no_song i e = cc

song-IsTree : IsTree song_tree
unfolding program
song-IsTree =
    (insert_file-Placed bare_tree (with_policy-IsTree (after_epoch 0) default_policy)
      (after_epoch 1) song "Rock" ("song.flac" ∷ []) refl refl
      (λ front back e. with_policy-DirOnly (after_epoch 0) default_policy (rooted_path front)) refl
      no_song (omega arith)).sound

insert_file-Placed_example : Placed bare_tree song (insert_file (after_epoch 1) song bare_tree)
unfolding program
insert_file-Placed_example =
    insert_file-Placed bare_tree (with_policy-IsTree (after_epoch 0) default_policy) (after_epoch 1)
      song "Rock" ("song.flac" ∷ []) refl refl
      (λ front back e. with_policy-DirOnly (after_epoch 0) default_policy (rooted_path front)) refl
      no_song (omega arith)

walk-path_example : walk song_tree root_inode ("Rock" ∷ "song.flac" ∷ []) ≡ some 3
unfolding program
walk-path_example = walk-path song_tree song-IsTree ("Rock" ∷ "song.flac" ∷ [])

mkdir-IsTree_example :
    IsTree (mkdir (after_epoch 2) (rooted_path ("Rock" ∷ "live" ∷ [])) song_tree).0
unfolding program
mkdir-IsTree_example =
    mkdir-IsTree song_tree song-IsTree (omega arith) (after_epoch 2)
      (rooted_path ("Rock" ∷ "live" ∷ [])) refl refl

remove_file-Gone_example :
    Gone song_tree song.virtual_path (remove_file song.virtual_path song_tree).0
    × ((remove_file song.virtual_path song_tree).1 ≡ some 7)
unfolding program
remove_file-Gone_example =
    remove_file-Gone song_tree song-IsTree song.virtual_path "Rock" ("song.flac" ∷ []) refl 3
      (record { inode = 3; name = "song.flac"; file_id = 7; size = 5; mtime = after_epoch 3 }) refl
      refl

-- A directory without children beside the one of the song.
abbrev beside : VirtualTree
beside = (mkdir (after_epoch 2) (rooted_path ("Rock and Roll" ∷ [])) song_tree).0

beside-IsTree : IsTree beside
unfolding program
beside-IsTree =
    mkdir-IsTree song_tree song-IsTree (omega arith) (after_epoch 2)
      (rooted_path ("Rock and Roll" ∷ [])) refl refl

remove_directory-cases_example : Answers beside (rooted_path ("Rock and Roll" ∷ []))
unfolding program
remove_directory-cases_example =
    remove_directory-cases beside beside-IsTree (rooted_path ("Rock and Roll" ∷ [])) "Rock and Roll"
      [] refl refl

-- The tree's directory has no child and goes; that of the song is not empty and stays.
bare_directory_goes : (remove_directory (rooted_path ("Rock and Roll" ∷ [])) beside).1 ≡ ok tt
unfolding program
bare_directory_goes = refl

full_directory_stays : (remove_directory (rooted_path ("Rock" ∷ [])) beside).1 ≡ err not_empty
unfolding program
full_directory_stays = refl

remove_directory_recursive-paths_example :
    lookup song.virtual_path
      (remove_directory_recursive canonical_text "/Rock" song_tree).0.path_to_inode
    ≡ none
unfolding program
remove_directory_recursive-paths_example =
    remove_directory_recursive-paths canonical_text "/Rock" song_tree 2 refl refl song.virtual_path

-- With a slash at the end of the text, the directory itself stays.
slash_left_behind :
    lookup
      (rooted_path ("Rock" ∷ []))
      (remove_directory_recursive canonical_text "/Rock/" song_tree).0.path_to_inode
    ≡ some 2
unfolding program
slash_left_behind = refl

remove_directory_recursive-sibling_example :
    lookup
      (rooted_path ("Rock and Roll" ∷ []))
      (remove_directory_recursive canonical_text "/Rock" beside).0.path_to_inode
    ≡ none
unfolding program
remove_directory_recursive-sibling_example =
    remove_directory_recursive-sibling canonical_text beside root "Rock" " and Roll" 2 refl refl
      refl refl
