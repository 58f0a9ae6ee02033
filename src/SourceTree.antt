-- ===== src/SourceTree.antt =====
-- The paths of `SourceTree` of modules/pytagsfs/sourcetree.py. The walk and the tests of files are
-- calls of the operating system.
pub mod RelativePaths
use pytagsfs.Base.{
  Bool, true, false, not, ◌&&◌, ◌==◌, if◌then◌else◌, List, [], ◌∷◌, Text, length, drop, is_empty,
  Result, ok, err, value_error, list_eq, nat_eq,
}
use pytagsfs.Util.Paths.{root, starts_with_sep, ends_with_sep, lstrip_sep, path_join}

-- `SourceTree(root)`: a root that is not absolute raises ValueError.
unfoldable pub new_source_tree : Text → Result Text
unfolding starts_with_sep
new_source_tree tree_root = if starts_with_sep tree_root then ok tree_root else err value_error

-- Whether `_validate_path` returns: it raises ValueError else.
unfoldable pub validate_path : Text → Bool
unfolding starts_with_sep ends_with_sep
validate_path path = starts_with_sep path && not (not (path == root) && ends_with_sep path)

unfoldable pub cut_root : Text → Text → Text
cut_root tree_root abs_path =
    let rel_path = drop (length tree_root) abs_path in if is_empty rel_path then root else rel_path

unfoldable pub get_relative_path : Text → Text → Result Text
unfolding validate_path cut_root
get_relative_path tree_root abs_path =
    if validate_path abs_path
    then (if tree_root == root then ok abs_path else ok (cut_root tree_root abs_path))
    else err value_error

unfoldable pub get_absolute_path : Text → Text → Result Text
unfolding validate_path lstrip_sep path_join
get_absolute_path tree_root rel_path =
    if validate_path rel_path
    then (if rel_path == root then ok tree_root else ok (path_join tree_root (lstrip_sep rel_path)))
    else err value_error
